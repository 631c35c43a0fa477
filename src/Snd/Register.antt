-- ===== src/Snd/Register.antt =====
-- `picocalc_snd_register`, which the two sound drivers have in the same words, and the card that it
-- makes.
use meta_picocalc.Prelude.{◌≡◌, arith, Bool, true, false, Result, ok, err, if◌then◌else◌}
use meta_picocalc.Kernel.{M, ◌>>◌, change, ask, guarded, is_ok}

-- The card of the sound core (it exists, it is registered), and the driver's pointer to it (it is not
-- NULL).
pub record Card : Type 0 where
  pub exists : Bool
  pub registered : Bool
  pub snd_card : Bool

abbrev pub no_card : Card
no_card = record { exists = false; registered = false; snd_card = false }

abbrev pub live_card : Card
live_card = record { exists = true; registered = true; snd_card = true }

-- what the sound core answers
pub record SoundCore : Type 0 where
  pub card_new : Result (Unit {0})
  pub device_new : Result (Unit {0})
  pub pcm_new : Result (Unit {0})
  pub card_register : Result (Unit {0})

-- `snd_card_free(card); picocalc->snd_card = NULL`
abbrev pub free_card : Card → Card
free_card c = no_card

unfoldable pub snd_register : SoundCore → M Card (Unit {0})
snd_register k = do
  ask k.card_new
  change (λ c. record c { exists = true; snd_card = true })
  guarded free_card (do
    ask k.device_new
    ask k.pcm_new
    ask k.card_register
    change (λ c. record c { registered = true }))

-- the first of the four answers that is an error
abbrev pub first_error : SoundCore → Result (Unit {0})
first_error k = elim k.card_new [
  | err e ↦ err e
  | ok _ ↦ elim k.device_new [
    | err e ↦ err e
    | ok _ ↦ elim k.pcm_new [ err e ↦ err e | ok _ ↦ k.card_register ]
  ]
]

-- Whatever the sound core answers, the registration returns its first error, or 0, and leaves a
-- registered card with the driver's pointer to it exactly when it returns 0: else there is no card
-- and no pointer.
pub snd_register_lem :
    (k : SoundCore)
    → snd_register k no_card ≡ (if is_ok (first_error k) then live_card else no_card, first_error k)
unfolding snd_register
snd_register_lem k = ground arith
