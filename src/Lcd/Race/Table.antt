-- ===== src/Lcd/Race/Table.antt =====
-- Entries of a table after one of them is replaced, and pixels of the memory after one is written.
use meta_picocalc.Prelude.{ℕ, get_or-set_other, ◌≡◌, ◌≢◌, sym, ◌⊎◌, arith, inl, ◌∙◌, ap, inr}
use native.Mathlib.Decide.{ℕ_discrete}
use meta_picocalc.Lcd.Race.Defs.{System, update, pixel, poke}

module _ {A : Type 0} (f : ℕ → A) (i : ℕ) (v : A) where
  pub update_other : (j : ℕ) → ¬ (j ≡ i) → update f i v j ≡ f j
  update_other j h = ground (arith, h)

  pub update_same : update f i v i ≡ v
  update_same = ground arith

  -- a value that is not the one replaced stands
  pub update_keeps : (w x : A) (j : ℕ) → f i ≡ w → ¬ (w ≡ x) → f j ≡ x → update f i v j ≡ x
  update_keeps w x j a n e = elim (ℕ_discrete j i) [
    | yes q ↦ absurd (n (sym a ∙ ap f (sym q) ∙ e))
    | no q ↦ update_other j q ∙ e
  ]

  pub update_from : (x : A) (j : ℕ) → update f i v j ≡ x → (v ≡ x) ⊎ (f j ≡ x)
  update_from x j e = elim (ℕ_discrete j i) [
    | yes q ↦ inl (sym (ap (update f i v) q ∙ update_same) ∙ e)
    | no q ↦ inr (sym (update_other j q) ∙ e)
  ]

pub pixel-poke_other : (s : System) (p q v : ℕ) → q ≢ p → pixel (poke s p v) q ≡ pixel s q
pixel-poke_other s p q v h = get_or-set_other s.fb.par.vmem p q v 0 h
