-- ===== src/Coordination/Groups/Broadcast.antt =====
-- `broadcast`: every consumer of the group takes the message, or the first that raises ends it.
use census_konantgit_sys_p2p.Prelude.{
  String, ℕ, ◌≡◌, none, some, ◌∙◌, ◌<◌, ap, ◌++◌, refl, ◌∷◌, List, [], drop, length, arith, suc,
}
use census_konantgit_sys_p2p.Coordination.Groups.{
  broadcast, broadcast_each, Consumers, GroupCoordinator,
}
use census_konantgit_sys_p2p.Coordination.ConsumerGroup.{
  ConsumerGroup, get_offset, on_message, Message,
}
use census_konantgit_sys_p2p.Outcome.{returned, raised, key_error}
use census_konantgit_sys_p2p.Dict.{lookup, lookup-insert_self}
use census_konantgit_sys_p2p.Coordination.ConsumerGroup.World.{on_message-world, on_message-returns}
use census_konantgit_sys_p2p.Coordination.ConsumerGroup.Frame.{on_message_without_buffer}

module _ {P W : Type 0} where
  -- Every consumer has subscribed to the topic.
  abbrev pub AllSubscribed : String → Consumers P W → Type 0
  AllSubscribed topic [] = Unit
  AllSubscribed topic ((cid, g) ∷ rest) =
      ((buffer : List (Message P)) × (lookup topic g.pending ≡ some buffer))
      × AllSubscribed topic rest

  -- Every consumer after it has taken the message.
  abbrev pub taken : String → ℕ → P → W → Consumers P W → Consumers P W
  taken topic seq payload w [] = []
  taken topic seq payload w ((cid, g) ∷ rest) =
      (cid, (on_message topic seq payload g w).1) ∷ taken topic seq payload w rest

  taken-world :
      (topic : String) (seq : ℕ) (payload : P) (cs : Consumers P W) (w v : W)
      → taken topic seq payload w cs ≡ taken topic seq payload v cs
  taken-world topic seq payload [] w v = refl
  taken-world topic seq payload ((cid, g) ∷ rest) w v =
      rw (on_message-world topic seq payload g w v).1 (rw (taken-world topic seq payload rest w v))

  broadcast_each-taken :
      (topic : String) (seq : ℕ) (payload : P) (cs : Consumers P W) (w : W)
      → AllSubscribed topic cs
      → let (r, cs', w') = broadcast_each topic seq payload cs w in
        (r ≡ returned tt) × (cs' ≡ taken topic seq payload w cs)
  unfolding broadcast_each
  broadcast_each-taken topic seq payload [] w h = (refl, refl)
  broadcast_each-taken topic seq payload ((cid, g) ∷ rest) w h =
      let w' = (on_message topic seq payload g w).2 in
      let ih = broadcast_each-taken topic seq payload rest w' h.1 in
      rw (on_message-returns topic seq payload h.0.0 g w h.0.1, broadcast_each)
        (ih.0, rw ih.1 (rw (taken-world topic seq payload rest w' w)))

  -- If every consumer of the group has subscribed to the topic, a broadcast returns, each consumer is as after `on_message` by itself, none is skipped, and the memberships stay.
  pub broadcast-taken :
      (gid topic : String) (seq : ℕ) (payload : P) (c : GroupCoordinator P W) (w : W)
      (cs : Consumers P W)
      → lookup gid c.groups ≡ some cs
      → AllSubscribed topic cs
      → let (r, c', w') = broadcast gid topic seq payload c w in
        (r ≡ returned tt)
        × (lookup gid c'.groups ≡ some (taken topic seq payload w cs))
        × (c'.membership ≡ c.membership)
  unfolding broadcast
  broadcast-taken gid topic seq payload c w cs e h =
      let all = broadcast_each-taken topic seq payload cs w h in
      rw (e, broadcast) (all.0, (lookup-insert_self gid _ c.groups ∙ ap some all.1), refl)

  -- A consumer that has joined and not subscribed ends the broadcast of every number that is not old for it: it raises KeyError, and no consumer behind it takes the message.
  broadcast_each_stops :
      (topic : String) (seq : ℕ) (payload : P) (before after : Consumers P W) (cid : String)
      (g : ConsumerGroup P W) (w : W)
      → AllSubscribed topic before
      → lookup topic g.pending ≡ none
      → get_offset topic g < seq
      → let (r, cs', w') = broadcast_each topic seq payload (before ++ (cid, g) ∷ after) w in
        (r ≡ raised key_error) × (drop (suc (length before)) cs' ≡ after)
  unfolding broadcast_each
  broadcast_each_stops topic seq payload [] after cid g w h e lt =
      let fails : (on_message topic seq payload g w).0 ≡ raised key_error =
        rw (on_message_without_buffer topic seq payload g w e) (ground arith) in
      rw (fails, broadcast_each) (refl, refl)
  broadcast_each_stops topic seq payload ((i, b) ∷ before) after cid g w h e lt =
      let w' = (on_message topic seq payload b w).2 in
      let ih = broadcast_each_stops topic seq payload before after cid g w' h.1 e lt in
      rw (on_message-returns topic seq payload h.0.0 b w h.0.1, broadcast_each) (ih.0, ih.1)
