-- ===== src/Setup/Device.antt =====
-- The firewall's entry in the device registry (__init__.py: _async_update_device).
use ha_sophos_fw.Prelude.{
  String, ◌≡◌, refl, Bool, true, false, ◌&&◌, Option, none, some, [], ◌∷◌, ◌++◌, arith, ◌==◌,
  eq_refl, if◌then◌else◌, or_else,
}
use ha_sophos_fw.Prelude.Dict
use ha_sophos_fw.Prelude.Dict.{Dict}
use ha_sophos_fw.Text.{non_empty}
use ha_sophos_fw.Models.Snmp.{DeviceInfo}

-- What is written of a device; a detail that is missing is left as it is. The details stand in the order
-- of the fields, so equal snapshots are equal lists.
pub record Snapshot : Type 0 where
  pub host : String
  pub port : String
  pub details : Dict String

abbrev pub equal_details : Dict String → Dict String → Bool
equal_details [] [] = true
equal_details ((k, v) ∷ d) ((j, w) ∷ e) = k == j && v == w && equal_details d e
equal_details d e = false

abbrev pub equal_snapshots : Option Snapshot → Snapshot → Bool
equal_snapshots none t = false
equal_snapshots (some s) t =
    s.host == t.host && s.port == t.port && equal_details s.details t.details

-- The entry of a value that is known and not empty.
unfoldable pub detail : String → Option String → Dict String
detail field none = []
detail field (some value) = if value == "" then [] else (field, value) ∷ []

-- `a or b` for values that may be empty.
unfoldable pub first_known : Option String → Option String → Option String
first_known none b = b
first_known (some a) b = if a == "" then b else some a

abbrev pub name_of : Option DeviceInfo → Option String
name_of none = none
name_of (some d) = d.name

known_details : Option DeviceInfo → Dict String
unfolding detail
known_details none = []
known_details (some d) =
    detail "model" d.model ++ detail "sw_version" d.firmware ++ detail "serial_number" d.serial

name_detail : Dict String → Bool → String → Dict String
name_detail [] exists host = if exists then [] else ("name", host) ∷ []
name_detail (d ∷ ds) exists host = d ∷ ds

-- `hostname` is that of the admin settings; `exists` tells whether the entry has a device.
unfoldable pub details_of : String → Option String → Option DeviceInfo → Bool → Dict String
unfolding detail first_known known_details name_detail
details_of host hostname device exists =
    name_detail (detail "name" (first_known hostname (name_of device))) exists host
    ++ known_details device

-- `_async_update_device`: the snapshot kept, and what is written to the registry, if anything.
unfoldable pub update_device :
    String
    → String
    → Option String
    → Option DeviceInfo
    → Bool
    → Option Snapshot
    → Option Snapshot × Option Snapshot
unfolding details_of
update_device host port hostname device exists last =
    let now : Snapshot = record {
      host = host;
      port = port;
      details = details_of host hostname device exists;
    } in
    if equal_snapshots last now then (last, none) else (some now, some now)

abbrev pub known : Option String → Option String
known none = none
known (some s) = non_empty s

not_name : (device : Option DeviceInfo) → Dict.get "name" (known_details device) ≡ none
unfolding known_details detail Dict.get
not_name none = refl
not_name (some d) = ground arith

named :
    (host : String) (hostname : Option String) (device : Option DeviceInfo) (exists : Bool)
    → Dict.get "name" (details_of host hostname device exists)
      ≡ or_else (known (first_known hostname (name_of device))) (if exists then none else some host)
unfolding details_of detail name_detail non_empty Dict.get
named host hostname device exists = ground (arith, not_name device)

-- What is written names the device by the first known name, of the admin settings or of the SNMP agent;
-- without one a new device is named by its host, and one that exists keeps its name.
pub name-update_device :
    (host port : String) (hostname : Option String) (device : Option DeviceInfo)
    → (exists : Bool) (last : Option Snapshot) (written : Snapshot)
    → (update_device host port hostname device exists last).1 ≡ some written
    → Dict.get "name" written.details
      ≡ or_else (known (first_known hostname (name_of device))) (if exists then none else some host)
unfolding update_device
name-update_device host port hostname device exists last written h =
    ground (arith, named host hostname device exists)

equal_details_refl : (d : Dict String) → equal_details d d ≡ true
equal_details_refl [] = refl
equal_details_refl ((k, v) ∷ d) = ground (arith, eq_refl k, eq_refl v, equal_details_refl d)

-- With nothing new the registry is written once at most: the next update finds the same snapshot.
pub update_device_idem :
    (host port : String) (hostname : Option String) (device : Option DeviceInfo)
    → (exists : Bool) (last : Option Snapshot)
    → let kept = (update_device host port hostname device exists last).0 in
      update_device host port hostname device exists kept ≡ (kept, none)
unfolding update_device
update_device_idem host port hostname device exists last =
    ground (
      arith,
      eq_refl host,
      eq_refl port,
      equal_details_refl (details_of host hostname device exists),
    )
