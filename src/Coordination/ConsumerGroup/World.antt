-- ===== src/Coordination/ConsumerGroup/World.antt =====
-- The change of the group does not depend on what the callbacks do, and a subscribed topic never
-- raises.
use census_konantgit_sys_p2p.Coordination.ConsumerGroup.{
  on_message, flush_from, flush_buffer, buffer_message, ConsumerGroup, Message, get_offset,
}
use census_konantgit_sys_p2p.Prelude.{
  String, ℕ, List, ◌≡◌, Bool-cases, Option-cases, ◌==◌, ◌∷◌, some, inl, inr, ◌+◌, ltb, refl, [],
}
use census_konantgit_sys_p2p.Dict.{lookup}
use census_konantgit_sys_p2p.Outcome.{returned}

module _ {P W : Type 0} where
  flush_from-world :
      (topic : String) (expected : ℕ) (ms : List (Message P)) (g : ConsumerGroup P W) (w v : W)
      → (flush_from topic expected ms g w).0 ≡ (flush_from topic expected ms g v).0
  unfolding flush_from
  flush_from-world topic expected [] g w v = refl
  flush_from-world topic expected (m ∷ ms) g w v = elim (Bool-cases (m.seq == expected)) [
    | inl e ↦ rw e (flush_from-world topic (expected + 1) ms _ _ _)
    | inr e ↦ rw e
  ]

  flush_buffer-world :
      (topic : String) (g : ConsumerGroup P W) (w v : W)
      → ((flush_buffer topic g w).0 ≡ (flush_buffer topic g v).0)
        × ((flush_buffer topic g w).1 ≡ (flush_buffer topic g v).1)
  unfolding flush_buffer
  flush_buffer-world topic g w v = elim (Option-cases (lookup topic g.pending)) [
    | inl e ↦ rw (e, flush_buffer) (refl, refl)
    | inr (ms, e) ↦ rw (e, flush_buffer) (refl, flush_from-world topic _ ms g w v)
  ]

  -- Outcome and group after a message are the same from every world.
  pub on_message-world :
      (topic : String) (seq : ℕ) (payload : P) (g : ConsumerGroup P W) (w v : W)
      → ((on_message topic seq payload g w).0 ≡ (on_message topic seq payload g v).0)
        × ((on_message topic seq payload g w).1 ≡ (on_message topic seq payload g v).1)
  unfolding on_message
  on_message-world topic seq payload g w v = elim (Bool-cases (seq == get_offset topic g + 1)) [
    | inl next ↦ rw next (flush_buffer-world topic _ _ _)
    | inr e ↦ rw e (elim (Bool-cases (ltb (get_offset topic g + 1) seq)) [
      | inl ahead ↦ rw ahead (refl, refl)
      | inr old ↦ rw old (refl, refl)
    ])
  ]

  -- On a topic with a buffer a message never raises.
  pub on_message-returns :
      (topic : String) (seq : ℕ) (payload : P) (buffer : List (Message P)) (g : ConsumerGroup P W)
      (w : W)
      → lookup topic g.pending ≡ some buffer
      → (on_message topic seq payload g w).0 ≡ returned tt
  unfolding on_message buffer_message flush_buffer
  on_message-returns topic seq payload buffer g w e =
      elim (Bool-cases (seq == get_offset topic g + 1)) [
        | inl next ↦ rw next (rw (e, flush_buffer))
        | inr n ↦ rw n (elim (Bool-cases (ltb (get_offset topic g + 1) seq)) [
          | inl ahead ↦ rw ahead (rw (e, buffer_message))
          | inr old ↦ rw old
        ])
      ]
