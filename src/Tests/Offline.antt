-- ===== src/Tests/Offline.antt =====
-- Instances for a device and its log, depin/device.py and depin/wal.py.
use census_konantgit_sys_p2p.Prelude.{◌∷◌, [], List, ℕ, ◌≡◌, some, none, String}
use census_konantgit_sys_p2p.Depin.DeviceLog.{new_log}
use census_konantgit_sys_p2p.Depin.DeviceLog.Numbers.{
  Act, appends, closes, opens, cleans, act_all, IsNumbered, act_all-IsNumbered,
}
use census_konantgit_sys_p2p.Depin.Device.{
  Device, new_device, connect, disconnect, publish_telemetry, sync,
}
use census_konantgit_sys_p2p.Depin.Device.Offline.{publish_telemetry-disconnect}
use census_konantgit_sys_p2p.Outcome.{raised, attribute_error}

abbrev hashed : String → String → String → ℕ → String
hashed device topic text ts = text

abbrev acts : List (Act String)
acts =
    opens
    ∷ appends "t" "one" none 4
    ∷ appends "t" "one" none 5
    ∷ appends "t" "two" (some 9) 6
    ∷ cleans 8
    ∷ closes
    ∷ opens
    ∷ appends "t" "three" none 7
    ∷ []

act_all-IsNumbered_example : IsNumbered (act_all hashed acts (new_log "meter" 30))
act_all-IsNumbered_example = act_all-IsNumbered hashed acts "meter" 30

abbrev rooted : List String → String
rooted texts = "root"

abbrev meter : Device String ℕ
meter = new_device hashed rooted "meter" "generic" (record { ttl_sec = 60; devices = [] })

publish_telemetry-disconnect_example :
    let offline = disconnect hashed rooted meter in
    let again = connect hashed rooted 1 5 offline in
    (publish_telemetry hashed rooted "one" 6 offline ≡ (raised attribute_error, offline))
    × (publish_telemetry hashed rooted "one" 6 again ≡ (raised attribute_error, again))
    × (sync hashed rooted 6 again ≡ (raised attribute_error, again))
publish_telemetry-disconnect_example = publish_telemetry-disconnect hashed rooted "one" 1 5 6 meter
