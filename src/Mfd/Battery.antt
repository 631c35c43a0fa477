-- ===== src/Mfd/Battery.antt =====
-- The battery monitor, picocalc_mfd_bms.c.
use meta_picocalc.Prelude.{
  lt→ltb, ap, true, false, ℕ, ◌+◌, ◌%◌, ◌/◌, ◌<◌, ◌≡◌, refl, arith, Bool, ltb, ◌==◌, if◌then◌else◌,
  Result, ok, err, einval, All, List, ◌∷◌, [],
}
use meta_picocalc.Regmap.{Regmap}

pub data Property : Type 0 where
  status capacity technology health other : Property

pub data Value : Type 0 where
  charging full discharging lion good : Value
  percent : ℕ → Value

-- The answer for a property, of the second byte of the reading: bit 7 says that the battery is
-- charging.
unfoldable pub status_of : ℕ → Value
status_of b = if ltb 0 (b / 128 % 2) then charging else if b % 128 == 100 then full else discharging

abbrev with_reading : {Bus : Type 0} → Bus × Result (ℕ × ℕ) → (ℕ → Value) → Bus × Result Value
with_reading (bus, ok (_, b)) f = (bus, ok (f b))
with_reading (bus, err e) f = (bus, err e)

module _ (R : Regmap) (reg : ℕ) where
  unfoldable pub get_property : Property → R.Bus → R.Bus × Result Value
  get_property status bus = with_reading (R.bulk_read bus reg) status_of
  get_property capacity bus = with_reading (R.bulk_read bus reg) (λ b. percent (b % 128))
  get_property technology bus = (bus, ok lion)
  get_property health bus = (bus, ok good)
  get_property other bus = (bus, err einval)

-- the properties that the driver announces to the power supply core
abbrev pub picocalc_bms_properties : List Property
picocalc_bms_properties = status ∷ capacity ∷ technology ∷ health ∷ []

-- the reading for a level and the charging flag
abbrev pub reading : Bool → ℕ → ℕ
reading charge level = if charge then 128 + level else level

level_of : (charge : Bool) (level : ℕ) → level < 128 → reading charge level % 128 ≡ level
level_of true level h = omega arith
level_of false level h = omega arith

status_of-reading :
    (charge : Bool) (level : ℕ)
    → level < 128
    → status_of (reading charge level)
      ≡ (if charge then charging else if level == 100 then full else discharging)
unfolding status_of
status_of-reading true level h =
    let e : ltb 0 ((128 + level) / 128 % 2) ≡ true =
      lt→ltb 0 ((128 + level) / 128 % 2) (omega arith) in
    rw e refl
status_of-reading false level h =
    let e : level / 128 % 2 ≡ 0 = omega arith in
    let f : level % 128 ≡ level = omega arith in rw (e, f) refl

-- When a read gives a level below 128 with or without the charging bit, the capacity is that level,
-- and the status is charging with the bit, else full exactly at 100.
pub get_property_lem :
    (R : Regmap) (reg : ℕ) (bus bus' : R.Bus) (first level : ℕ) (charge : Bool)
    → level < 128
    → R.bulk_read bus reg ≡ (bus', ok (first, reading charge level))
    → (get_property R reg capacity bus ≡ (bus', ok (percent level)))
      × (get_property R reg status bus
          ≡ (bus', ok (if charge then charging else if level == 100 then full else discharging)))
unfolding get_property status_of
get_property_lem R reg bus bus' first level charge h e = rw e (
  ap (λ n. (bus', ok (percent n))) (level_of charge level h),
  ap (λ v. (bus', ok v)) (status_of-reading charge level h),
)

-- When the read fails, its error is the answer for both properties that need it, and the other two
-- are still answered.
pub get_property_fails :
    (R : Regmap) (reg : ℕ) (bus bus' : R.Bus) (e : ℕ)
    → R.bulk_read bus reg ≡ (bus', err e)
    → (get_property R reg capacity bus ≡ (bus', err e))
      × (get_property R reg status bus ≡ (bus', err e))
      × (get_property R reg technology bus ≡ (bus, ok lion))
      × (get_property R reg health bus ≡ (bus, ok good))
unfolding get_property
get_property_fails R reg bus bus' e h = rw h (refl, refl, refl, refl)

-- Each property that the driver announces is answered whenever the register can be read.
announced_answered :
    (R : Regmap) (reg first b : ℕ) (bus bus' : R.Bus)
    → R.bulk_read bus reg ≡ (bus', ok (first, b))
    → All (λ p. (v : Value) × ((get_property R reg p bus).1 ≡ ok v)) picocalc_bms_properties
unfolding get_property
announced_answered R reg first b bus bus' e =
    ((status_of b, rw e refl), ((percent (b % 128), rw e refl), ((lion, refl), ((good, refl), tt))))
