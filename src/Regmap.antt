-- ===== src/Regmap.antt =====
-- The kernel's regmap interface as the drivers call it: an 8-bit register bus behind which the
-- keyboard controller's firmware sits. It is not part of the repository, so every driver takes it
-- as a parameter. A bulk read is always of two bytes here.
use meta_picocalc.Prelude.{ℕ, Result}

pub record Regmap : Type 1 where
  pub Bus : Type 0
  pub read : Bus → ℕ → Bus × Result ℕ
  pub bulk_read : Bus → ℕ → Bus × Result (ℕ × ℕ)
  pub write : Bus → ℕ → ℕ → Bus × Result (Unit {0})
