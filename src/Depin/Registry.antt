-- ===== src/Depin/Registry.antt =====
-- `class DeviceRegistry` of depin/registry.py. A device's record has its type, the time at which it was
-- last seen, and the other fields, `I`. The registry keeps the records by value: the dictionary that a
-- caller hands to `register` is the caller's own from then on.
pub mod Live
use census_konantgit_sys_p2p.Prelude.{
  ◌∷◌, [], List, ◌++◌, map, String, ℕ, Option, Bool, if◌then◌else◌, length, none, not, false, leb,
  ◌-◌, some, true, str_eq,
}
use census_konantgit_sys_p2p.Dict.{insert, contains, values, lookup, erase, Dict}

-- The fields of `info` that are not underscored.
pub record Info (I : Type 0) : Type 0 where
  pub device_type : Option String
  pub rest : I

pub record Device (I : Type 0) : Type 0 where
  pub info : Info I
  pub device_id : String
  pub last_seen : ℕ

pub record DeviceRegistry (I : Type 0) : Type 0 where
  pub ttl_sec : ℕ
  pub devices : Dict (Device I)

pub record Published (I : Type 0) : Type 0 where
  pub devices : List (String × Info I)
  pub count : ℕ

abbrev pub has_type : String → Option String → Bool
has_type t none = false
has_type t (some s) = str_eq s t

module _ {I : Type 0} where
  unfoldable pub new_registry : ℕ → DeviceRegistry I
  new_registry ttl_sec = record { ttl_sec = ttl_sec; devices = [] }

  unfoldable pub register : String → Info I → ℕ → DeviceRegistry I → Bool × DeviceRegistry I
  unfolding contains insert
  register id info now r = (
    not (contains id r.devices),
    record r {
      devices = insert id (record { info = info; device_id = id; last_seen = now }) r.devices;
    },
  )

  unfoldable pub unregister : String → DeviceRegistry I → Bool × DeviceRegistry I
  unfolding contains erase
  unregister id r = (contains id r.devices, record r { devices = erase id r.devices })

  -- Not yet beyond the time to live.
  unfoldable pub is_live : ℕ → ℕ → Device I → Bool
  is_live ttl_sec now d = leb (now - d.last_seen) ttl_sec

  unfoldable pub get : String → ℕ → DeviceRegistry I → Option (Device I) × DeviceRegistry I
  unfolding unregister is_live
  get id now r = elim (lookup id r.devices) [
    | none ↦ (none, r)
    | some d ↦ if is_live r.ttl_sec now d then (some d, r) else (none, (unregister id r).1)
  ]

  unfoldable pub of_type : String → List (Device I) → List (Device I)
  of_type t [] = []
  of_type t (d ∷ ds) =
      let rest = of_type t ds in if has_type t d.info.device_type then d ∷ rest else rest

  unfoldable pub list_by_type : String → DeviceRegistry I → List (Device I)
  unfolding of_type
  list_by_type t r = of_type t (values r.devices)

  unfoldable pub active : ℕ → ℕ → List (Device I) → List (Device I)
  unfolding is_live
  active ttl_sec now [] = []
  active ttl_sec now (d ∷ ds) =
      let rest = active ttl_sec now ds in if is_live ttl_sec now d then d ∷ rest else rest

  unfoldable pub list_all : ℕ → DeviceRegistry I → List (Device I)
  unfolding active
  list_all now r = active r.ttl_sec now (values r.devices)

  unfoldable pub count : ℕ → DeviceRegistry I → ℕ
  unfolding list_all
  count now r = length (list_all now r)

  unfoldable pub heartbeat : String → ℕ → DeviceRegistry I → Bool × DeviceRegistry I
  unfolding insert
  heartbeat id now r = elim (lookup id r.devices) [
    | none ↦ (false, r)
    | some d ↦ (true, record r { devices = insert id (record d { last_seen = now }) r.devices })
  ]

  -- The number counts the expired devices too.
  unfoldable pub to_dict : DeviceRegistry I → Published I
  to_dict r = record {
    devices = map (λ e. (e.0, e.1.info)) r.devices;
    count = length (values r.devices);
  }
