-- ===== src/Phase0/Transport/Subscribers.antt =====
-- The bus of phase0/transport.py: who gets what is published, and what a stopped transport leaves there.
use census_konantgit_sys_p2p.Prelude.{
  ◌∷◌, [], List, ℕ, String, ◌++◌, ◌≡◌, false, sym, map, append-nil, ◌∙◌, append_assoc,
}
use census_konantgit_sys_p2p.Phase0.Transport.{
  Bus, Delivery, Transport, deliver_local, call_each, with_newline, publish, subscribe,
}
use census_konantgit_sys_p2p.Phase0.Hex.{Bytes}
use census_konantgit_sys_p2p.Dict.{member, get_or, get_or-insert_self}

-- What a list of subscribers gets.
abbrev pub deliveries : List (String × ℕ) → Bytes → List Delivery
deliveries subs payload = map (λ s. record { callback = s.1; payload = payload }) subs

call_each-deliveries :
    (subs : List (String × ℕ)) (payload : Bytes) (delivered : List Delivery)
    → call_each subs payload delivered ≡ delivered ++ deliveries subs payload
unfolding call_each
call_each-deliveries [] payload delivered = sym (append-nil delivered)
call_each-deliveries ((id, callback) ∷ rest) payload delivered =
    call_each-deliveries rest payload
      (delivered ++ record { callback = callback; payload = payload } ∷ [])
    ∙ append_assoc delivered (record { callback = callback; payload = payload } ∷ [])
        (deliveries rest payload)

-- What a transport publishes on a topic is given once to each callback that was subscribed before, in the order of the subscriptions and whichever transport of the process subscribed it, and then to one subscribed last by a transport that had no subscription of its own to the topic.
publish-subscribe :
    (topic : String) (callback : ℕ) (payload : Bytes) (t u : Transport) (bus : Bus)
    → member topic t.subscribed_topics ≡ false
    → let after = (subscribe topic callback t bus).1 in
      (publish topic payload u after).1.delivered
      ≡ bus.delivered
        ++ deliveries
            (get_or topic [] bus.topics ++ (t.node_id, callback) ∷ [])
            (with_newline payload)
unfolding publish subscribe deliver_local
publish-subscribe topic callback payload t u bus new =
    let subs = get_or topic [] bus.topics ++ (t.node_id, callback) ∷ [] in
    rw new (
      rw (get_or-insert_self topic subs [] bus.topics)
        (call_each-deliveries subs (with_newline payload) bus.delivered))
