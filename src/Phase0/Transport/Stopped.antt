-- ===== src/Phase0/Transport/Stopped.antt =====
-- What a stopped transport of phase0/transport.py leaves on the bus.
use census_konantgit_sys_p2p.Prelude.{
  ◌∷◌, [], List, ℕ, String, ◌≡◌, Bool, if◌then◌else◌, false, sym, ◌||◌, true, Bool-cases, str_eq,
  ◌∙◌, refl, inl, inr, ◌&&◌, subst, eq_refl,
}
use census_konantgit_sys_p2p.Phase0.Transport.{
  Bus, Transport, subscribe, unsubscribe, unsubscribe_each, stop,
}
use census_konantgit_sys_p2p.Dict.{member, get_or, lookup}
use census_konantgit_sys_p2p.Phase0.Transport.Callbacks.{
  has_callback, member-discard, unsubscribe-has_callback, subscribe-has_callback,
  subscribe-transport, unsubscribe-transport, subscribe_known,
}

-- Every callback that the transport has on the bus is for a topic that it has in its own set.
abbrev pub IsTracked : Transport → Bus → Type 0
IsTracked t bus =
    (topic : String)
    → has_callback t.node_id (get_or topic [] bus.topics) ≡ true
    → member topic t.subscribed_topics ≡ true

-- A transport, other transports of the process and their bus, at work.
pub data Step : Transport → Bus → Transport → Bus → Type 0 where
  subscribed :
      {t : Transport} {bus : Bus} (topic : String) (callback : ℕ)
      → Step t bus (subscribe topic callback t bus).0 (subscribe topic callback t bus).1
  unsubscribed :
      {t : Transport} {bus : Bus} (topic : String)
      → Step t bus (unsubscribe topic t bus).0 (unsubscribe topic t bus).1
  other_subscribed :
      {t : Transport} {bus : Bus} (u : Transport) (topic : String) (callback : ℕ)
      → str_eq u.node_id t.node_id ≡ false
      → Step t bus t (subscribe topic callback u bus).1
  other_unsubscribed :
      {t : Transport} {bus : Bus} (u : Transport) (topic : String)
      → str_eq u.node_id t.node_id ≡ false
      → Step t bus t (unsubscribe topic u bus).1

pub data Run : Transport → Bus → Transport → Bus → Type 0 where
  stay : {t : Transport} {bus : Bus} → Run t bus t bus
  onward :
      {t : Transport} {bus : Bus} {u : Transport} {bus1 : Bus} {v : Transport} {bus2 : Bus}
      → Run t bus u bus1
      → Step u bus1 v bus2
      → Run t bus v bus2

or_left : (a b : Bool) → b ≡ false → (a || b) ≡ true → a ≡ true
or_left true b e h = refl
or_left false b e h = absurd (cc)

and_left_false : (a b : Bool) → a ≡ false → (a && b) ≡ false
and_left_false a b e = rw e refl

and_right_false : (a b : Bool) → b ≡ false → (a && b) ≡ false
and_right_false true b e = e
and_right_false false b e = refl

subscribed-IsTracked :
    (topic : String) (callback : ℕ) (t : Transport) (bus : Bus)
    → IsTracked t bus
    → let after = subscribe topic callback t bus in
      (after.0.node_id ≡ t.node_id) × IsTracked after.0 after.1
unfolding member
subscribed-IsTracked topic callback t bus h = elim (Bool-cases (member topic t.subscribed_topics)) [
  | inl known ↦ rw (subscribe_known topic callback t bus known) (refl, h)
  | inr new ↦
      let after = subscribe topic callback t bus in
      let (own, topics) = subscribe-transport topic callback t bus new in
      (
        own,
        λ other has.
            let was = subscribe-has_callback topic other t.node_id callback t bus new in
            let has' : has_callback t.node_id (get_or other [] after.1.topics) ≡ true =
              subst (λ id. has_callback id (get_or other [] after.1.topics) ≡ true) own has in
            rw topics (elim (Bool-cases (str_eq topic other)) [
              | inl same ↦ rw same refl
              | inr differ ↦
                  rw differ (h other (or_left _ _ (and_left_false _ _ differ) (sym was ∙ has')))
            ]),
      )
]

unsubscribed-IsTracked :
    (topic : String) (t : Transport) (bus : Bus)
    → IsTracked t bus
    → let after = unsubscribe topic t bus in
      (after.0.node_id ≡ t.node_id) × IsTracked after.0 after.1
unsubscribed-IsTracked topic t bus h =
    let after = unsubscribe topic t bus in
    let (own, topics) = unsubscribe-transport topic t bus in
    (
      own,
      λ other has.
          let was = unsubscribe-has_callback topic other t.node_id t bus in
          let has' : has_callback t.node_id (get_or other [] after.1.topics) ≡ true =
            subst (λ id. has_callback id (get_or other [] after.1.topics) ≡ true) own has in
          rw (topics, member-discard topic other t.subscribed_topics)
            (kept_topic (str_eq topic other) (str_eq t.node_id t.node_id)
              (has_callback t.node_id (get_or other [] bus.topics))
              (member other t.subscribed_topics) (eq_refl t.node_id) (h other) (sym was ∙ has')),
    )
  where
    kept_topic :
        (same own had known : Bool)
        → own ≡ true
        → (had ≡ true → known ≡ true)
        → (if same && own then false else had) ≡ true
        → (if same then false else known) ≡ true
    kept_topic true true had known e f h = absurd (cc)
    kept_topic true false had known e f h = absurd (cc)
    kept_topic false own had known e f h = f h

other_unsubscribed-IsTracked :
    (u : Transport) (topic : String) (t : Transport) (bus : Bus)
    → str_eq u.node_id t.node_id ≡ false
    → IsTracked t bus
    → IsTracked t (unsubscribe topic u bus).1
other_unsubscribed-IsTracked u topic t bus differ h other has =
    let was = unsubscribe-has_callback topic other t.node_id u bus in
    let same : (if str_eq topic other && str_eq u.node_id t.node_id
          then false
          else has_callback t.node_id (get_or other [] bus.topics))
        ≡ has_callback t.node_id (get_or other [] bus.topics) =
      rw (and_right_false (str_eq topic other) (str_eq u.node_id t.node_id) differ) refl in
    h other (sym (was ∙ same) ∙ has)

other_subscribed-IsTracked :
    (u : Transport) (topic : String) (callback : ℕ) (t : Transport) (bus : Bus)
    → str_eq u.node_id t.node_id ≡ false
    → IsTracked t bus
    → IsTracked t (subscribe topic callback u bus).1
other_subscribed-IsTracked u topic callback t bus differ h =
    elim (Bool-cases (member topic u.subscribed_topics)) [
      | inl known ↦ rw (subscribe_known topic callback u bus known) h
      | inr new ↦ λ other has.
          let was = subscribe-has_callback topic other t.node_id callback u bus new in
          h other (or_left _ _ (and_right_false _ _ differ) (sym was ∙ has))
    ]

Step-IsTracked :
    {t : Transport} {bus : Bus} {u : Transport} {bus' : Bus}
    → Step t bus u bus'
    → IsTracked t bus
    → (u.node_id ≡ t.node_id) × IsTracked u bus'
Step-IsTracked {t = t} {bus = bus} (subscribed topic callback) h =
    subscribed-IsTracked topic callback t bus h
Step-IsTracked {t = t} {bus = bus} (unsubscribed topic) h = unsubscribed-IsTracked topic t bus h
Step-IsTracked {t = t} {bus = bus} (other_subscribed u topic callback differ) h =
    (refl, other_subscribed-IsTracked u topic callback t bus differ h)
Step-IsTracked {t = t} {bus = bus} (other_unsubscribed u topic differ) h =
    (refl, other_unsubscribed-IsTracked u topic t bus differ h)

Run-IsTracked :
    {t : Transport} {bus : Bus} {u : Transport} {bus' : Bus}
    → Run t bus u bus'
    → IsTracked t bus
    → (u.node_id ≡ t.node_id) × IsTracked u bus'
Run-IsTracked stay h = (refl, h)
Run-IsTracked (onward before last) h =
    let (same, tracked) = Run-IsTracked before h in
    let (same', tracked') = Step-IsTracked last tracked in (same' ∙ same, tracked')

unsubscribe_each-has_callback :
    (topics : List String) (other : String) (t : Transport) (bus : Bus)
    → has_callback t.node_id (get_or other [] (unsubscribe_each topics t bus).1.topics)
      ≡ (if member other topics then false else has_callback t.node_id (get_or other [] bus.topics))
unfolding unsubscribe_each member
unsubscribe_each-has_callback [] other t bus = refl
unsubscribe_each-has_callback (topic ∷ topics) other t bus =
    let (t', bus') = unsubscribe topic t bus in
    let (own, _) = unsubscribe-transport topic t bus in
    let later = unsubscribe_each-has_callback topics other t' bus' in
    let was = unsubscribe-has_callback topic other t.node_id t bus in
    subst
      (λ id.
        has_callback id (get_or other [] (unsubscribe_each topics t' bus').1.topics)
        ≡ (if member other topics then false else has_callback id (get_or other [] bus'.topics)))
      own later
    ∙ rw was (rw (eq_refl t.node_id) (both (str_eq topic other) (member other topics) _))
  where
    both :
        (same later had : Bool)
        → (if later then false else (if same && true then false else had))
          ≡ (if same || later then false else had)
    both true true had = refl
    both true false had = refl
    both false later had = refl

-- After `stop`, no callback of the transport is left on the bus for any topic, whatever it and the other transports of the process, with other names, have subscribed and unsubscribed before.
pub stop-no_callback :
    (t u : Transport) (bus : Bus) (topic : String)
    → t.subscribed_topics ≡ []
    → Run t (record { topics = []; delivered = [] }) u bus
    → has_callback u.node_id (get_or topic [] (stop u bus).1.topics) ≡ false
unfolding stop get_or lookup has_callback
stop-no_callback t u bus topic fresh run =
    let (_, tracked) = Run-IsTracked run (λ topic' has. absurd (cc)) in
    let left = record u { running = false; tcp_connections = []; tls_sessions = [] } in
    unsubscribe_each-has_callback u.subscribed_topics topic left bus
    ∙ nothing_left (member topic u.subscribed_topics)
        (has_callback u.node_id (get_or topic [] bus.topics)) (tracked topic)
  where
    nothing_left :
        (known had : Bool) → (had ≡ true → known ≡ true) → (if known then false else had) ≡ false
    nothing_left true had f = refl
    nothing_left false true f = absurd (let e = f refl in cc)
    nothing_left false false f = refl
