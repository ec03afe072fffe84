-- ===== src/Relay/Link/Forward.antt =====
-- What one relay forwards over a link of relay/redundancy.py is delivered at the other one.
use census_konantgit_sys_p2p.Prelude.{
  ◌∷◌, [], List, String, ◌++◌, true, ◌≡◌, map, Bool, sym, false, append-nil, refl, ◌∙◌,
  append_assoc,
}
use census_konantgit_sys_p2p.Relay.Link.{
  RelayLink, LinkMessage, incoming, relay_forward, forward, send, read_loop, handle,
}

module _ {M : Type 0} where
  -- Several calls of `forward` whose writes succeed.
  abbrev pub forward_all : List (String × M) → RelayLink M → RelayLink M
  forward_all [] l = l
  forward_all ((target, m) ∷ rest) l = forward_all rest (forward true m target l).1

  abbrev forwards : List (String × M) → List (LinkMessage M)
  forwards = map (λ x. relay_forward x.0 x.1)

  forward_all-written :
      (ms : List (String × M)) (l : RelayLink M)
      → l.has_writer ≡ true
      → (forward_all ms l).written ≡ l.written ++ forwards ms
  unfolding forward send
  forward_all-written [] l ready = sym (append-nil l.written)
  forward_all-written ((target, m) ∷ rest) l ready = rw ready (
      forward_all-written rest
        (record l { has_writer = true; written = l.written ++ relay_forward target m ∷ [] }) refl
      ∙ append_assoc l.written (relay_forward target m ∷ []) (forwards rest))

  read_loop-delivered :
      (ms : List (String × M)) (l : RelayLink M)
      → l.running ≡ true
      → (read_loop (map incoming (forwards ms)) l).delivered ≡ l.delivered ++ ms
  unfolding read_loop handle
  read_loop-delivered [] l on = sym (append-nil l.delivered)
  read_loop-delivered ((target, m) ∷ rest) l on = rw on (
      read_loop-delivered rest
        (record l { running = true; delivered = l.delivered ++ (target, m) ∷ [] }) refl
      ∙ append_assoc l.delivered ((target, m) ∷ []) rest)

  -- The messages that a connected relay forwards, all of whose writes succeed, arrive at a running other relay, one by one and in their order, each with its target.
  read_loop-forward_all :
      (ms : List (String × M)) (a b : RelayLink M)
      → a.has_writer ≡ true
      → a.written ≡ []
      → b.running ≡ true
      → (read_loop (map incoming (forward_all ms a).written) b).delivered ≡ b.delivered ++ ms
  read_loop-forward_all ms a b ready fresh on =
      rw (forward_all-written ms a ready) (rw fresh (read_loop-delivered ms b on))

  -- `forward` answers `True` for a link that has never been connected, which sends nothing.
  forward_unconnected :
      (sent : Bool) (m : M) (target : String) (l : RelayLink M)
      → l.has_writer ≡ false
      → forward sent m target l ≡ (true, l)
  unfolding forward send
  forward_unconnected sent m target l shut = rw shut refl
