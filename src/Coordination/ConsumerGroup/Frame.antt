-- ===== src/Coordination/ConsumerGroup/Frame.antt =====
-- What `on_message` leaves alone, and what it does on a topic without a buffer.
use census_konantgit_sys_p2p.Prelude.{
  ℕ, ◌+◌, ◌≡◌, ◌≢◌, refl, String, Option-cases, List, Bool-cases, none, ◌==◌, inl, ◌∷◌,
  if◌then◌else◌, inr, [], ◌∙◌, ltb, arith,
}
use census_konantgit_sys_p2p.Coordination.ConsumerGroup.{
  on_message, flush_buffer, ConsumerGroup, flush_from, buffer_message, Message, get_offset,
  run_callbacks,
}
use census_konantgit_sys_p2p.Dict.{lookup, insert, get_or, lookup-insert_ne}
use census_konantgit_sys_p2p.Outcome.{raised, key_error, returned}

module _ {P W : Type 0} where
  -- Two groups agree on a topic: its subscribers, its offset and its buffer.
  pub record SameTopic (topic : String) (a b : ConsumerGroup P W) : Type 0 where
    pub callbacks : lookup topic a.topics ≡ lookup topic b.topics
    pub offset : lookup topic a.offsets ≡ lookup topic b.offsets
    pub buffer : lookup topic a.pending ≡ lookup topic b.pending

  module _ (topic other : String) (differ : topic ≢ other) where
    flush_from-SameTopic :
        (ms : List (Message P)) (expected : ℕ) (g : ConsumerGroup P W) (w : W)
        → SameTopic other (flush_from topic expected ms g w).0 g
    unfolding flush_from
    flush_from-SameTopic [] expected g w = record { callbacks = refl; offset = refl; buffer = refl }
    flush_from-SameTopic (m ∷ ms) expected g w = elim (Bool-cases (m.seq == expected)) [
      | inl e ↦
          let rest =
            flush_from-SameTopic ms (expected + 1)
              (record g {
                pending = insert topic ms g.pending;
                offsets = insert topic expected g.offsets;
              })
              (run_callbacks (get_or topic [] g.topics) m.payload w) in
          rw e (record {
            callbacks = rest.callbacks;
            offset = rest.offset ∙ lookup-insert_ne topic other expected g.offsets differ;
            buffer = rest.buffer ∙ lookup-insert_ne topic other ms g.pending differ;
          })
      | inr e ↦ rw e (record { callbacks = refl; offset = refl; buffer = refl })
    ]

    flush_buffer-SameTopic :
        (g : ConsumerGroup P W) (w : W) → SameTopic other (flush_buffer topic g w).1 g
    unfolding flush_buffer
    flush_buffer-SameTopic g w = elim (Option-cases (lookup topic g.pending)) [
      | inl e ↦ rw (e, flush_buffer) (record { callbacks = refl; offset = refl; buffer = refl })
      | inr (ms, e) ↦ rw (e, flush_buffer) (flush_from-SameTopic ms (get_offset topic g + 1) g w)
    ]

    -- A message on one topic changes neither the subscribers nor the offset nor the buffer of another topic, also where it raises.
    on_message-SameTopic :
        (seq : ℕ) (payload : P) (g : ConsumerGroup P W) (w : W)
        → SameTopic other (on_message topic seq payload g w).1 g
    unfolding on_message buffer_message
    on_message-SameTopic seq payload g w = elim (Bool-cases (seq == get_offset topic g + 1)) [
      | inl next ↦
          let rest =
            flush_buffer-SameTopic (record g { offsets = insert topic seq g.offsets })
              (run_callbacks (get_or topic [] g.topics) payload w) in
          rw next (record {
            callbacks = rest.callbacks;
            offset = rest.offset ∙ lookup-insert_ne topic other seq g.offsets differ;
            buffer = rest.buffer;
          })
      | inr e ↦ rw e (elim (Bool-cases (ltb (get_offset topic g + 1) seq)) [
        | inl ahead ↦ rw ahead (elim (Option-cases (lookup topic g.pending)) [
          | inl none_yet ↦
              rw (none_yet, buffer_message)
                (record { callbacks = refl; offset = refl; buffer = refl })
          | inr (ms, found) ↦
              rw (found, buffer_message)
                (record {
                  callbacks = refl;
                  offset = refl;
                  buffer = lookup-insert_ne topic other _ g.pending differ;
                })
        ])
        | inr old ↦ rw old (record { callbacks = refl; offset = refl; buffer = refl })
      ])
    ]

  -- On a topic that has no buffer, as after `load_state` and before `subscribe`: the next number is handed to the callbacks and moves the offset, and then the call raises KeyError; a number ahead raises KeyError and changes nothing; an old number returns and changes nothing.
  pub on_message_without_buffer :
      (topic : String) (seq : ℕ) (payload : P) (g : ConsumerGroup P W) (w : W)
      → lookup topic g.pending ≡ none
      → on_message topic seq payload g w ≡ (
          if seq == get_offset topic g + 1
          then (
            raised key_error,
            record g { offsets = insert topic seq g.offsets },
            run_callbacks (get_or topic [] g.topics) payload w,
          )
          else if ltb (get_offset topic g + 1) seq
          then (raised key_error, g, w)
          else (returned tt, g, w))
  unfolding on_message buffer_message flush_buffer
  on_message_without_buffer topic seq payload g w e =
      rw (e, flush_buffer, buffer_message) (ground arith)
