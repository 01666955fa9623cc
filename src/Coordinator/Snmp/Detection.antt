-- ===== src/Coordinator/Snmp/Detection.antt =====
-- When a virtual appliance is recognised.
use ha_sophos_fw.Prelude.{
  ℕ, ◌+◌, ◌-◌, ◌<◌, ◌≡◌, refl, Bool, true, false, Option, none, some, List, [], ◌∷◌, arith, leb,
  eqb, if◌then◌else◌, is_some, length, any_of,
}
use ha_sophos_fw.Models.Snmp.{SystemHealth, has_hardware_sensors}
use ha_sophos_fw.Coordinator.Snmp.{Own, read_health}

-- Successful health reads, one after the other.
unfoldable pub read_all : List SystemHealth → Own → Own
read_all [] own = own
read_all (h ∷ hs) own = read_all hs (read_health h own).0

abbrev pub take {ℓ} : {A : Type ℓ} → ℕ → List A → List A
take n [] = []
take n (x ∷ xs) = let rest = take (n - 1) xs in if eqb n 0 then [] else x ∷ rest

-- What is known of the appliance when `n` more reads without sensors make it virtual: hardware if one
-- of the next `n` reads has a sensor, virtual if there are `n` and none has, else not known yet.
unfoldable pub verdict : ℕ → List SystemHealth → Option Bool
verdict n hs =
    if any_of has_hardware_sensors (take n hs)
    then some false
    else if leb n (length hs)
    then some true
    else none

take_zero : {A : Type 0} → (p : A → Bool) (xs : List A) → any_of p (take 0 xs) ≡ false
take_zero p [] = refl
take_zero p (x ∷ xs) = refl

decided :
    (hs : List SystemHealth) (own : Own)
    → is_some own.is_virtual ≡ true
    → (read_all hs own).is_virtual ≡ own.is_virtual
unfolding read_all read_health
decided [] own h = refl
decided (x ∷ hs) own h = ground (arith, decided hs own h)

undecided :
    (hs : List SystemHealth) (own : Own)
    → own.is_virtual ≡ none
    → own.empty_health_reads < 3
    → (read_all hs own).is_virtual ≡ verdict (3 - own.empty_health_reads) hs
unfolding read_all read_health verdict
undecided [] own h few = ground arith
undecided (x ∷ hs) own h few =
    let reads = own.empty_health_reads + 1 in
    let hardware = record own { is_virtual = some false } in
    let virtual = record own { is_virtual = some true; empty_health_reads = reads } in
    let open_still = record own { empty_health_reads = reads } in
    ground (
      arith,
      decided hs hardware refl,
      decided hs virtual refl,
      undecided hs open_still h,
      take_zero has_hardware_sensors hs,
    )

-- A coordinator decides by its first three successful health reads: the appliance is hardware if one
-- of them has a sensor, virtual if all three have none, and undecided while there are fewer; later
-- reads do not change the decision.
pub virtual-read_all :
    (own : Own) (hs : List SystemHealth)
    → own.is_virtual ≡ none
    → own.empty_health_reads ≡ 0
    → (read_all hs own).is_virtual ≡ verdict 3 hs
virtual-read_all own hs fresh none_read = ground (arith, undecided hs own)
