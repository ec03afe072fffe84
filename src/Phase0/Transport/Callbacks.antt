-- ===== src/Phase0/Transport/Callbacks.antt =====
-- What one `subscribe` or `unsubscribe` of phase0/transport.py changes of the callbacks on the bus.
use census_konantgit_sys_p2p.Prelude.{
  ◌∷◌, [], List, ℕ, String, Option, none, some, ◌++◌, ◌≡◌, Bool, if◌then◌else◌, false, ◌||◌, true,
  Bool-cases, str_eq, arith, ◌∙◌, refl, eq_iff, inl, inr, Option-cases, ◌&&◌, ap, subst,
}
use census_konantgit_sys_p2p.Phase0.Transport.{
  Bus, Transport, subscribe, unsubscribe, without, discard, write_each, write, Frame, is_excluded,
  get_session_for_peer, sub_frame, unsub_frame,
}
use census_konantgit_sys_p2p.Dict.{
  member, get_or, Dict, lookup, insert, get_or_of_none, get_or-insert, get_or_of_lookup,
}

-- The node has a callback among the subscribers.
unfoldable pub has_callback : String → List (String × ℕ) → Bool
has_callback id [] = false
has_callback id ((sid, callback) ∷ rest) = str_eq sid id || has_callback id rest

has_callback-append :
    (id : String) (xs ys : List (String × ℕ))
    → has_callback id (xs ++ ys) ≡ (has_callback id xs || has_callback id ys)
unfolding has_callback
has_callback-append id [] ys = refl
has_callback-append id (x ∷ xs) ys = ground (arith, has_callback-append id xs ys)

has_callback-without :
    (id j : String) (xs : List (String × ℕ))
    → has_callback j (without id xs) ≡ (if str_eq id j then false else has_callback j xs)
unfolding has_callback without
has_callback-without id j [] = ground arith
has_callback-without id j ((sid, c) ∷ xs) =
    ground (arith, has_callback-without id j xs, eq_iff sid id, eq_iff sid j, eq_iff id j)

pub member-discard :
    (x y : String) (xs : List String)
    → member y (discard x xs) ≡ (if str_eq x y then false else member y xs)
unfolding member discard
member-discard x y [] = ground arith
member-discard x y (z ∷ xs) =
    ground (arith, member-discard x y xs, eq_iff z x, eq_iff z y, eq_iff x y)

-- Writing changes neither a transport's name nor its subscriptions.
write_each-frame :
    (frame : Frame) (exclude : Option String) (d : Dict ℕ) (t : Transport)
    → let t' = write_each frame exclude d t in
      (t'.node_id ≡ t.node_id) × (t'.subscribed_topics ≡ t.subscribed_topics)
unfolding write_each write
write_each-frame frame exclude [] t = (refl, refl)
write_each-frame frame exclude ((peer_id, c) ∷ rest) t =
    elim (Bool-cases (is_excluded exclude peer_id)) [
      | inl e ↦ rw (e, write_each) (write_each-frame frame exclude rest t)
      | inr e ↦
          rw (e, write_each)
            (write_each-frame frame exclude rest (write c (get_session_for_peer peer_id t) frame t))
    ]

-- The bus without the callbacks of a node on a topic.
has_callback-insert :
    (topic other id : String) (subs : List (String × ℕ)) (d : Dict (List (String × ℕ)))
    → has_callback id (get_or other [] (insert topic subs d))
      ≡ (if str_eq topic other then has_callback id subs else has_callback id (get_or other [] d))
has_callback-insert topic other id subs d =
    ap (has_callback id) (get_or-insert topic other subs [] d)
    ∙ elim (Bool-cases (str_eq topic other)) [ inl e ↦ rw e refl | inr e ↦ rw e refl ]

-- What unsubscribing takes away: the callbacks of this node, on this topic.
pub unsubscribe-has_callback :
    (topic other id : String) (t : Transport) (bus : Bus)
    → has_callback id (get_or other [] (unsubscribe topic t bus).1.topics) ≡ (
        if str_eq topic other && str_eq t.node_id id
        then false
        else has_callback id (get_or other [] bus.topics))
unfolding unsubscribe has_callback
unsubscribe-has_callback topic other id t bus = elim (Option-cases (lookup topic bus.topics)) [
  | inl e ↦
      rw (e, unsubscribe)
        (elim (Bool-cases (str_eq topic other)) [
          | inr differ ↦ rw differ refl
          | inl same ↦
              let gone : get_or other [] bus.topics ≡ [] =
                get_or_of_none other [] bus.topics
                  (subst (λ k. lookup k bus.topics ≡ none) ((eq_iff topic other).0 same) e) in
              rw (same, gone) (ground arith)
        ])
  | inr (subs, e) ↦
      rw (e, unsubscribe)
        (has_callback-insert topic other id (without t.node_id subs) bus.topics
          ∙ elim (Bool-cases (str_eq topic other)) [
            | inr differ ↦ rw differ refl
            | inl same ↦
                let here : get_or other [] bus.topics ≡ subs =
                  get_or_of_lookup other subs [] bus.topics (
                    subst (λ k. lookup k bus.topics ≡ some subs) ((eq_iff topic other).0 same) e) in
                rw (same, here, has_callback-without t.node_id id subs) refl
          ])
]

pub subscribe-has_callback :
    (topic other id : String) (callback : ℕ) (t : Transport) (bus : Bus)
    → member topic t.subscribed_topics ≡ false
    → has_callback id (get_or other [] (subscribe topic callback t bus).1.topics) ≡ (
        has_callback id (get_or other [] bus.topics) || (str_eq topic other && str_eq t.node_id id))
unfolding subscribe has_callback
subscribe-has_callback topic other id callback t bus new = rw new (
    has_callback-insert topic other id (get_or topic [] bus.topics ++ (t.node_id, callback) ∷ [])
      bus.topics
    ∙ elim (Bool-cases (str_eq topic other)) [
      | inr differ ↦ rw differ (ground arith)
      | inl same ↦ rw same (
          has_callback-append id (get_or topic [] bus.topics) ((t.node_id, callback) ∷ [])
          ∙ subst
              (λ k.
                (has_callback id (get_or topic [] bus.topics) || (str_eq t.node_id id || false))
                ≡ (has_callback id (get_or k [] bus.topics) || str_eq t.node_id id))
              ((eq_iff topic other).0 same) (ground arith))
    ])

pub subscribe-transport :
    (topic : String) (callback : ℕ) (t : Transport) (bus : Bus)
    → member topic t.subscribed_topics ≡ false
    → let u = (subscribe topic callback t bus).0 in
      (u.node_id ≡ t.node_id) × (u.subscribed_topics ≡ topic ∷ t.subscribed_topics)
unfolding subscribe
subscribe-transport topic callback t bus new = rw new (
    write_each-frame (sub_frame topic t.node_id) none t.tcp_connections
      (record t { subscribed_topics = topic ∷ t.subscribed_topics }))

pub unsubscribe-transport :
    (topic : String) (t : Transport) (bus : Bus)
    → let u = (unsubscribe topic t bus).0 in
      (u.node_id ≡ t.node_id) × (u.subscribed_topics ≡ discard topic t.subscribed_topics)
unfolding unsubscribe
unsubscribe-transport topic t bus =
    write_each-frame (unsub_frame topic t.node_id) none t.tcp_connections
      (record t { subscribed_topics = discard topic t.subscribed_topics })

pub subscribe_known :
    (topic : String) (callback : ℕ) (t : Transport) (bus : Bus)
    → member topic t.subscribed_topics ≡ true
    → subscribe topic callback t bus ≡ (t, bus)
unfolding subscribe
subscribe_known topic callback t bus known = rw known refl
