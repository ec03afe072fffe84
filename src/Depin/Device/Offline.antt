-- ===== src/Depin/Device/Offline.antt =====
-- A device of depin/device.py after it has disconnected.
use census_konantgit_sys_p2p.Prelude.{List, ℕ, String, none, ◌≡◌, false, refl}
use census_konantgit_sys_p2p.Depin.Device.{
  Device, publish_telemetry, disconnect, connect, emit, sync,
}
use census_konantgit_sys_p2p.Depin.DeviceLog.{DeviceLog, append, close, get_all}
use census_konantgit_sys_p2p.Outcome.{raised, attribute_error}

append_shut :
    {T : Type 0} (hash_of : String → String → T → ℕ → String) (topic : String) (m : T) (now : ℕ)
    (l : DeviceLog T)
    → l.is_open ≡ false
    → append hash_of topic m none now l ≡ (raised attribute_error, l)
unfolding append
append_shut hash_of topic m now l shut = rw shut refl

module _ {M I : Type 0} (hash_of : String → String → M → ℕ → String)
    (root_of : List M → String) where
  publish_shut :
      (payload : M) (now : ℕ) (d : Device M I)
      → d.log.is_open ≡ false
      → publish_telemetry hash_of root_of payload now d ≡ (raised attribute_error, d)
  unfolding publish_telemetry
  publish_shut payload now d shut =
      rw (append_shut hash_of _ payload now d.log shut, publish_telemetry) refl

  -- A device that has disconnected writes no telemetry: `publish_telemetry` raises and records nothing, while it is offline and also after it has connected again; and `sync` raises once it has connected again.
  pub publish_telemetry-disconnect :
      (payload : M) (rest : I) (now later : ℕ) (d : Device M I)
      → let offline = disconnect hash_of root_of d in
        let again = connect hash_of root_of rest now offline in
        (publish_telemetry hash_of root_of payload later offline
          ≡ (raised attribute_error, offline))
        × (publish_telemetry hash_of root_of payload later again ≡ (raised attribute_error, again))
        × (sync hash_of root_of later again ≡ (raised attribute_error, again))
  unfolding disconnect connect emit close sync get_all
  publish_telemetry-disconnect payload rest now later d =
      let offline = disconnect hash_of root_of d in
      (
        publish_shut payload later offline refl,
        publish_shut payload later (connect hash_of root_of rest now offline) refl,
        refl,
      )
