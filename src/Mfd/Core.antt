-- ===== src/Mfd/Core.antt =====
-- The device itself, picocalc_mfd.c, with the registers of picocalc_reg.h that it uses.
use meta_picocalc.Prelude.{
  arith, ℕ, ◌≡◌, refl, Bool, true, false, if◌then◌else◌, Result, ok, err, enomem, Option, none,
  some, ap,
}
use meta_picocalc.Prelude.Bits.{bit_or}
use meta_picocalc.Regmap.{Regmap}

abbrev pub reg_id_typ : ℕ
reg_id_typ = 0x00

abbrev pub reg_id_ver : ℕ
reg_id_ver = 0x01

abbrev pub reg_id_off : ℕ
reg_id_off = 0x0e

-- The text of a number, `sysfs_emit(buf, "0x%02x\\n", n)`, is the kernel's.
module _ (R : Regmap) {Text : Type 0} (sysfs_emit : ℕ → Text) where
  abbrev emitted : R.Bus × Result ℕ → R.Bus × Result Text
  emitted (bus, ok n) = (bus, ok (sysfs_emit n))
  emitted (bus, err e) = (bus, err e)

  unfoldable pub fw_version_show : R.Bus → R.Bus × Result Text
  fw_version_show bus = emitted (R.read bus reg_id_ver)

  unfoldable pub fw_type_show : R.Bus → R.Bus × Result Text
  fw_type_show bus = emitted (R.read bus reg_id_typ)

pub data SystemState : Type 0 where
  restart halt power_off running : SystemState

-- `picocalc_mfd_shutdown`, with the register map of the device, if any
unfoldable pub shutdown : (R : Regmap) → SystemState → Option (Unit {0}) → ℕ → R.Bus → R.Bus
shutdown R restart regmap poweroff_reg bus = bus
shutdown R halt none poweroff_reg bus = bus
shutdown R power_off none poweroff_reg bus = bus
shutdown R running none poweroff_reg bus = bus
shutdown R halt (some _) poweroff_reg bus = (R.write bus (bit_or poweroff_reg 128) 1).0
shutdown R power_off (some _) poweroff_reg bus = (R.write bus (bit_or poweroff_reg 128) 1).0
shutdown R running (some _) poweroff_reg bus = (R.write bus (bit_or poweroff_reg 128) 1).0

-- What the kernel answers during the probe.
pub record Answers : Type 0 where
  pub kzalloc : Bool
  pub poweroff : Result ℕ
  pub regmap_init : Result (Unit {0})
  pub create_group : Result (Unit {0})
  pub populate : Result (Unit {0})

-- What the probe has done when it returns: the `poweroff_reg` it stored, whether the sysfs group
-- exists, and whether the child devices were asked for.
pub record Probed : Type 0 where
  pub poweroff_reg : Option ℕ
  pub group : Bool
  pub children : Bool

abbrev nothing : Probed
nothing = record { poweroff_reg = none; group = false; children = false }

module _ (R : Regmap) (k : Answers) where
  abbrev created : ℕ → Result (Unit {0}) → Probed × Result (Unit {0})
  created p (err e) = (record nothing { poweroff_reg = some p }, err e)
  created p (ok _) = (record { poweroff_reg = some p; group = true; children = true }, k.populate)

  abbrev read_version : ℕ → R.Bus × Result ℕ → (Probed × R.Bus) × Result (Unit {0})
  read_version p (bus, err e) = ((record nothing { poweroff_reg = some p }, bus), err e)
  read_version p (bus, ok _) = let c = created p k.create_group in ((c.0, bus), c.1)

  abbrev read_type : ℕ → R.Bus × Result ℕ → (Probed × R.Bus) × Result (Unit {0})
  read_type p (bus, err e) = ((record nothing { poweroff_reg = some p }, bus), err e)
  read_type p (bus, ok _) = read_version p (R.read bus reg_id_ver)

  abbrev with_regmap : ℕ → Result (Unit {0}) → R.Bus → (Probed × R.Bus) × Result (Unit {0})
  with_regmap p (err e) bus = ((record nothing { poweroff_reg = some p }, bus), err e)
  with_regmap p (ok _) bus = read_type p (R.read bus reg_id_typ)

  abbrev with_property : Result ℕ → R.Bus → (Probed × R.Bus) × Result (Unit {0})
  with_property (err e) bus = ((nothing, bus), err e)
  with_property (ok p) bus = with_regmap p k.regmap_init bus

  -- `picocalc_mfd_probe`
  unfoldable pub probe : R.Bus → (Probed × R.Bus) × Result (Unit {0})
  probe bus = if k.kzalloc then with_property k.poweroff bus else ((nothing, bus), err enomem)

-- `picocalc_mfd_remove`; the children are the device core's to remove.
unfoldable pub remove : Probed → Probed
remove d = record d { group = false }

abbrev pub is_ok : Result (Unit {0}) → Bool
is_ok (ok _) = true
is_ok (err _) = false

refused {ℓ} : {G : Type ℓ} → false ≡ true → G
refused h = absurd (ground arith)

abbrev pub complete : ℕ → Probed
complete p = record { poweroff_reg = some p; group = true; children = true }

module _ (R : Regmap) (k : Answers) where
  abbrev IsComplete : ℕ → (Probed × R.Bus) × Result (Unit {0}) → Type 0
  IsComplete p r = is_ok r.1 ≡ true → r.0.0 ≡ complete p

  read_version_ok :
      (p : ℕ) (r : R.Bus × Result ℕ) (g : Result (Unit {0}))
      → k.create_group ≡ g
      → IsComplete p (read_version R k p r)
  read_version_ok p (bus, err e) g q h = refused h
  read_version_ok p (bus, ok n) (err e) q h = refused (rw q at h)
  read_version_ok p (bus, ok n) (ok _) q h = rw q refl

  read_type_ok : (p : ℕ) (r : R.Bus × Result ℕ) → IsComplete p (read_type R k p r)
  read_type_ok p (bus, err e) h = refused h
  read_type_ok p (bus, ok n) h = read_version_ok p (R.read bus reg_id_ver) k.create_group refl h

  with_regmap_ok :
      (p : ℕ) (r : Result (Unit {0})) (bus : R.Bus) → IsComplete p (with_regmap R k p r bus)
  with_regmap_ok p (err e) bus h = refused h
  with_regmap_ok p (ok _) bus h = read_type_ok p (R.read bus reg_id_typ) h

  with_property_ok :
      (r : Result ℕ) (bus : R.Bus)
      → is_ok (with_property R k r bus).1 ≡ true
      → (p : ℕ) × (r ≡ ok p) × ((with_property R k r bus).0.0 ≡ complete p)
  with_property_ok (err e) bus h = refused h
  with_property_ok (ok p) bus h = (p, refl, with_regmap_ok p k.regmap_init bus h)

  probe_ok :
      (bus : R.Bus) (b : Bool)
      → k.kzalloc ≡ b
      → is_ok (probe R k bus).1 ≡ true
      → (p : ℕ) × (k.poweroff ≡ ok p) × ((probe R k bus).0.0 ≡ complete p)
  unfolding probe
  probe_ok bus true e h = simp e (with_property_ok k.poweroff bus (simp e at h))
  probe_ok bus false e h = refused (simp e at h)

-- A probe that returns 0 has stored the device's `poweroff` property, created the sysfs group and
-- asked for the children. At any shutdown but a restart, the device then writes 1 to that register
-- with bit 7 set; at a restart it leaves the bus alone.
pub probe-shutdown :
    (R : Regmap) (k : Answers) (bus later : R.Bus)
    → is_ok (probe R k bus).1 ≡ true
    → (p : ℕ) × (k.poweroff ≡ ok p)
      × ((probe R k bus).0.0 ≡ complete p)
      × (shutdown R power_off (some tt) p later ≡ (R.write later (bit_or p 128) 1).0)
      × (shutdown R halt (some tt) p later ≡ (R.write later (bit_or p 128) 1).0)
      × (shutdown R restart (some tt) p later ≡ later)
unfolding probe shutdown
probe-shutdown R k bus later h =
    let (p, e, f) = probe_ok R k bus k.kzalloc refl h in (p, e, f, refl, refl, refl)

-- A remove after a probe that returned 0 takes back the group that it created, and nothing else.
probe-remove_group :
    (R : Regmap) (k : Answers) (bus : R.Bus)
    → is_ok (probe R k bus).1 ≡ true
    → (p : ℕ) × (k.poweroff ≡ ok p)
      × (remove (probe R k bus).0.0 ≡ record (complete p) { group = false })
unfolding probe remove
probe-remove_group R k bus h =
    let (p, e, f) = probe_ok R k bus k.kzalloc refl h in (p, e, ap remove f)
