-- ===== src/Depin/Device/Publishing.antt =====
-- Telemetry that a device of depin/device.py publishes is in its log, with a connection and without.
use census_konantgit_sys_p2p.Prelude.{
  ◌∷◌, [], List, ℕ, String, none, ◌++◌, ◌≡◌, true, eq_iff, if◌then◌else◌, Bool-cases, Bool, ◌||◌,
  inl, inr, str_eq, refl, false,
}
use census_konantgit_sys_p2p.Depin.Device.{
  Device, telemetry, publish_telemetry, emit, telemetry_topic,
}
use census_konantgit_sys_p2p.Depin.DeviceLog.{DeviceLog, Row, append, has_hash, time_or}
use census_konantgit_sys_p2p.Outcome.{returned}

has_hash-last :
    {T : Type 0} (hash : String) (rs : List (Row T)) (r : Row T)
    → r.hash ≡ hash
    → has_hash hash (rs ++ r ∷ []) ≡ true
unfolding has_hash
has_hash-last hash [] r e = rw ((eq_iff r.hash hash).1 e) refl
has_hash-last hash (s ∷ rs) r e = rw (has_hash-last hash rs r e) (or_true (str_eq s.hash hash))
  where
    or_true : (b : Bool) → (b || true) ≡ true
    or_true true = refl
    or_true false = refl

append-kept :
    {T : Type 0} (hash_of : String → String → T → ℕ → String) (topic : String) (m : T) (now : ℕ)
    (l : DeviceLog T)
    → l.is_open ≡ true
    → let hash = hash_of l.device_id topic m now in
      ((append hash_of topic m none now l).0 ≡ returned hash)
      × (has_hash hash (append hash_of topic m none now l).1.rows ≡ true)
unfolding append time_or
append-kept hash_of topic m now l ready =
    let hash = hash_of l.device_id topic m now in
    rw ready (elim (Bool-cases (has_hash hash l.rows)) [
      | inl there ↦ rw there (refl, there)
      | inr new ↦ rw new (refl, has_hash-last hash l.rows _ refl)
    ])

module _ {M I : Type 0} (hash_of : String → String → M → ℕ → String)
    (root_of : List M → String) where
  -- A device with an open log publishes telemetry: the answer is the hash of the record, a row with this hash is in the log afterwards, and the mesh gets the telemetry, once, if the device is connected and nothing if it is not.
  publish_telemetry-kept :
      (payload : M) (now : ℕ) (d : Device M I)
      → d.log.is_open ≡ true
      → let (outcome, after) = publish_telemetry hash_of root_of payload now d in
        let topic = telemetry_topic d.device_id in
        let hash = hash_of d.log.device_id topic payload now in
        (outcome ≡ returned hash)
        × (has_hash hash after.log.rows ≡ true)
        × (after.emitted
            ≡ (if d.connected then d.emitted ++ (topic, telemetry payload) ∷ [] else d.emitted))
  unfolding publish_telemetry emit
  publish_telemetry-kept payload now d ready =
      let topic = telemetry_topic d.device_id in
      let (answer, kept) = append-kept hash_of topic payload now d.log ready in
      rw (answer, publish_telemetry)
        (elim (Bool-cases d.connected) [
          | inl on ↦ rw on (refl, kept, refl)
          | inr off ↦ rw off (refl, kept, refl)
        ])
