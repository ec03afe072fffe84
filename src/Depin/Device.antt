-- ===== src/Depin/Device.antt =====
-- `class DePINDevice` of depin/device.py over its log, the registry of the process and the mesh. `M` is the
-- type of telemetry, `I` that of the fields that a registration adds. What goes to the mesh is the list
-- `emitted`, of topics with what is published; the Merkle root of a log is the parameter `root_of`. The
-- mesh agent starts and stops as it is asked to.
pub mod Offline
pub mod Publishing
use census_konantgit_sys_p2p.Prelude.{
  ◌∷◌, [], List, zero, suc, ℕ, String, Option, none, some, ◌++◌, false, Bool, true, if◌then◌else◌,
  not, length,
}
use census_konantgit_sys_p2p.Depin.Registry.{DeviceRegistry, Info, register, unregister}
use census_konantgit_sys_p2p.Depin.DeviceLog.{DeviceLog, append, get_all, close, open_log, new_log}
use census_konantgit_sys_p2p.Depin.DeviceLog
use Prim.Native.String.{◌++◌ as text_append}
use census_konantgit_sys_p2p.Outcome.{Outcome, raised, returned}

-- What the device publishes: telemetry, a heartbeat, or the root of its log.
pub data Published (M : Type 0) : Type 0 where
  telemetry : M → Published M
  heartbeat : (ts : ℕ) → Published M
  merkle_root : (root_hash : String) (leaf_count : ℕ) (ts : ℕ) → Published M

pub record Device (M : Type 0) (I : Type 0) : Type 0 where
  pub device_id : String
  pub device_type : String
  pub log : DeviceLog M
  pub registry : DeviceRegistry I
  pub connected : Bool
  pub last_sync : ℕ
  pub missed_during_offline : ℕ
  pub merkle_diff : ℕ
  pub emitted : List (String × Published M)

-- What `sync` and `sync_status` report.
pub record Status : Type 0 where
  pub is_connected : Bool
  pub wal_messages : ℕ
  pub synced_at : ℕ
  pub missed : ℕ
  pub diff : ℕ

abbrev pub telemetry_topic : String → String
telemetry_topic id = text_append "depin:" (text_append id ":telemetry")

abbrev pub events_topic : String → String
events_topic kind = text_append "depin:" (text_append kind ":events")

module _ {M I : Type 0} (hash_of : String → String → M → ℕ → String)
    (root_of : List M → String) where
  -- `DePINDevice(device_id, device_type)`, whose log is opened.
  unfoldable pub new_device : String → String → DeviceRegistry I → Device M I
  unfolding new_log open_log
  new_device device_id device_type registry = record {
    device_id = device_id;
    device_type = device_type;
    log = open_log (new_log device_id 30);
    registry = registry;
    connected = false;
    last_sync = 0;
    missed_during_offline = 0;
    merkle_diff = 0;
    emitted = [];
  }

  unfoldable pub emit : String → Published M → Device M I → Device M I
  emit topic p d = record d { emitted = d.emitted ++ (topic, p) ∷ [] }

  -- `connect`
  unfoldable pub connect : I → (now : ℕ) → Device M I → Device M I
  unfolding emit register
  connect rest now d =
      let info : Info I = record { device_type = some d.device_type; rest = rest } in
      emit (events_topic d.device_type) (heartbeat now)
        (record d { connected = true; registry = (register d.device_id info now d.registry).1 })

  -- `disconnect`
  unfoldable pub disconnect : Device M I → Device M I
  unfolding unregister close
  disconnect d = record d {
    connected = false;
    registry = (unregister d.device_id d.registry).1;
    log = close d.log;
  }

  -- `reboot`
  unfoldable pub reboot : Device M I → Device M I
  unfolding disconnect
  reboot d = disconnect d

  -- `publish_telemetry`, of the payload with its time in it.
  unfoldable pub publish_telemetry : M → (now : ℕ) → Device M I → Outcome String × Device M I
  unfolding append emit
  publish_telemetry payload now d =
      let (outcome, log) = append hash_of (telemetry_topic d.device_id) payload none now d.log in
      elim outcome [
        | raised e ↦ (raised e, d)
        | returned hash ↦ (
          returned hash,
          if d.connected
              then emit (telemetry_topic d.device_id) (telemetry payload) (record d { log = log })
              else record d { log = log },
        )
      ]

  -- `sync`: `none` is the answer that the device is not connected.
  unfoldable pub sync : (now : ℕ) → Device M I → Outcome (Option Status) × Device M I
  unfolding get_all emit
  sync now d = if not d.connected then (returned none, d) else elim (get_all 1000 d.log) [
    | raised e ↦ (raised e, d)
    | returned messages ↦
        let status : Status = record {
          is_connected = d.connected;
          wal_messages = length messages;
          synced_at = now;
          missed = d.missed_during_offline;
          diff = 0;
        } in
        (
          returned (some status),
          record (emit (telemetry_topic d.device_id)
              (merkle_root (root_of messages) (length messages) now) d) {
                last_sync = now;
                merkle_diff = 0;
              },
        )
  ]

  -- `sync_status`
  unfoldable pub sync_status : Device M I → Outcome Status
  unfolding DeviceLog.count
  sync_status d = elim (DeviceLog.count d.log) [
    | raised e ↦ raised e
    | returned n ↦ returned (record {
      is_connected = d.connected;
      wal_messages = n;
      synced_at = d.last_sync;
      missed = d.missed_during_offline;
      diff = d.merkle_diff;
    })
  ]
