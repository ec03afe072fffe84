-- ===== src/Coordination/ConsumerGroup/Lane.antt =====
-- One topic of a group by itself: the offset, the buffer and the payloads delivered so far, and the
-- refinement: `on_message` acts on its topic as `arrive` does, and on no other topic.
use census_konantgit_sys_p2p.Prelude.{
  ℕ, ◌+◌, String, ◌≡◌, refl, ap, ◌∙◌, some, List, [], ◌∷◌, ◌++◌, arith, ltb, ◌==◌, if◌then◌else◌,
  Bool-cases, inl, inr,
}
use census_konantgit_sys_p2p.Dict.{lookup, get_or, dict_laws, lookup-insert_self}
use census_konantgit_sys_p2p.Coordination.ConsumerGroup.{
  Callback, ConsumerGroup, Message, run_callbacks, get_offset, flush_from, on_message, flush_buffer,
  on_messages, buffer_message,
}
use census_konantgit_sys_p2p.Coordination.ConsumerGroup.Sorting.{
  IsAscending, place, place-IsAscending, sort_by_seq-append,
}
use census_konantgit_sys_p2p.Outcome.{returned, Done}

pub record Lane (P : Type 0) : Type 0 where
  pub offset : ℕ
  pub buffer : List (Message P)
  pub delivered : List P

module _ {P : Type 0} where
  -- Hands on the buffered messages that follow the offset without a gap.
  unfoldable pub drain : List (Message P) → Lane P → Lane P
  drain [] l = record l { buffer = [] }
  drain (m ∷ ms) l =
      if m.seq == l.offset + 1
      then drain ms
          (record { offset = l.offset + 1; buffer = ms; delivered = l.delivered ++ m.payload ∷ [] })
      else record l { buffer = m ∷ ms }

  unfoldable pub arrive : Message P → Lane P → Lane P
  arrive m l =
      if m.seq == l.offset + 1
      then drain l.buffer
          (record { offset = m.seq; buffer = l.buffer; delivered = l.delivered ++ m.payload ∷ [] })
      else if ltb (l.offset + 1) m.seq
      then record l { buffer = place m l.buffer }
      else l

  unfoldable pub arrive_all : List (Message P) → Lane P → Lane P
  arrive_all [] l = l
  arrive_all (m ∷ ms) l = arrive_all ms (arrive m l)

  drain-IsAscending :
      (ms : List (Message P)) (l : Lane P) → IsAscending ms → IsAscending (drain ms l).buffer
  unfolding drain
  drain-IsAscending [] l h = tt
  drain-IsAscending (m ∷ ms) l h = elim (Bool-cases (m.seq == l.offset + 1)) [
    | inl e ↦ rw e (drain-IsAscending ms _ h.1)
    | inr e ↦ rw e h
  ]

  arrive-IsAscending :
      (m : Message P) (l : Lane P) → IsAscending l.buffer → IsAscending (arrive m l).buffer
  unfolding arrive
  arrive-IsAscending m l h = ground (
    arith,
    drain-IsAscending l.buffer
        (record { offset = m.seq; buffer = l.buffer; delivered = l.delivered ++ m.payload ∷ [] }) h,
    place-IsAscending m l.buffer h,
  )

-- The effect of delivering payloads one after another.
unfoldable pub deliver_all : {P W : Type 0} → List (Callback P W) → List P → W → W
deliver_all cbs [] w = w
deliver_all cbs (p ∷ ps) w = deliver_all cbs ps (run_callbacks cbs p w)

deliver_all-snoc :
    {P W : Type 0} (cbs : List (Callback P W)) (ps : List P) (p : P) (w : W)
    → deliver_all cbs (ps ++ p ∷ []) w ≡ run_callbacks cbs p (deliver_all cbs ps w)
unfolding deliver_all
deliver_all-snoc cbs [] p w = refl
deliver_all-snoc cbs (q ∷ ps) p w = deliver_all-snoc cbs ps p (run_callbacks cbs q w)

module _ {P W : Type 0} (topic : String) (cbs : List (Callback P W)) (start : W) where
  -- The group and the world are what the lane says, from the world `start` on.
  pub record Shows (g : ConsumerGroup P W) (w : W) (l : Lane P) : Type 0 where
    pub callbacks : get_or topic [] g.topics ≡ cbs
    pub offset : get_offset topic g ≡ l.offset
    pub buffer : lookup topic g.pending ≡ some l.buffer
    pub world : w ≡ deliver_all cbs l.delivered start

  flush_from-Shows :
      (ms : List (Message P)) (g : ConsumerGroup P W) (w : W) (l : Lane P)
      → l.buffer ≡ ms
      → Shows g w l
      → Shows
          (flush_from topic (l.offset + 1) ms g w).0
          (flush_from topic (l.offset + 1) ms g w).1
          (drain ms l)
  unfolding flush_from drain
  flush_from-Shows [] g w l e s = record {
    callbacks = s.callbacks;
    offset = s.offset;
    buffer = s.buffer ∙ ap some e;
    world = s.world;
  }
  flush_from-Shows (m ∷ ms) g w l e s = elim (Bool-cases (m.seq == l.offset + 1)) [
    | inl t ↦ rw t (
        flush_from-Shows ms _ _
          (record { offset = l.offset + 1; buffer = ms; delivered = l.delivered ++ m.payload ∷ [] })
          refl
          (record {
            callbacks = s.callbacks;
            offset = simp dict_laws;
            buffer = simp dict_laws;
            world = rw deliver_all-snoc (rw (s.callbacks, s.world));
          }))
    | inr t ↦ rw t (record {
      callbacks = s.callbacks;
      offset = s.offset;
      buffer = s.buffer ∙ ap some e;
      world = s.world;
    })
  ]

  -- The call returned, and the state it left is what the lane says.
  abbrev pub Ends : Done × ConsumerGroup P W × W → Lane P → Type 0
  Ends (r, g, w) l = (r ≡ returned tt) × Shows g w l

  flush_buffer-Ends :
      (g : ConsumerGroup P W) (w : W) (l : Lane P)
      → Shows g w l
      → Ends (flush_buffer topic g w) (drain l.buffer l)
  unfolding flush_buffer
  flush_buffer-Ends g w l s =
      rw (s.buffer, flush_buffer) (refl, rw s.offset (flush_from-Shows l.buffer g w l refl s))

  buffer_message-Ends :
      (m : Message P) (g : ConsumerGroup P W) (w : W) (l : Lane P)
      → Shows g w l
      → IsAscending l.buffer
      → let (r, g') = buffer_message topic m g in
        Ends (r, g', w) (record l { buffer = place m l.buffer })
  unfolding buffer_message
  buffer_message-Ends m g w l s asc =
      rw (s.buffer, buffer_message)
        (
          refl,
          record {
            callbacks = s.callbacks;
            offset = s.offset;
            buffer =
                lookup-insert_self topic _ g.pending ∙ ap some (sort_by_seq-append l.buffer m asc);
            world = s.world;
          },
        )

  -- `on_message` returns and acts on its topic as `arrive` does.
  on_message-Ends :
      (m : Message P) (g : ConsumerGroup P W) (w : W) (l : Lane P)
      → Shows g w l
      → IsAscending l.buffer
      → Ends (on_message topic m.seq m.payload g w) (arrive m l)
  unfolding on_message arrive
  on_message-Ends m g w l s asc = elim (Bool-cases (m.seq == l.offset + 1)) [
    | inl next ↦ rw s.offset (
        rw next (
          flush_buffer-Ends _ _ _ (record {
            callbacks = s.callbacks;
            offset = simp dict_laws;
            buffer = s.buffer;
            world = rw deliver_all-snoc (rw (s.callbacks, s.world));
          })))
    | inr other ↦ rw s.offset (
        rw other (elim (Bool-cases (ltb (l.offset + 1) m.seq)) [
          | inl ahead ↦ rw ahead (buffer_message-Ends m g w l s asc)
          | inr old ↦ rw old (refl, s)
        ]))
  ]

  pub on_messages-Ends :
      (ms : List (Message P)) (g : ConsumerGroup P W) (w : W) (l : Lane P)
      → Shows g w l
      → IsAscending l.buffer
      → Ends (on_messages topic ms g w) (arrive_all ms l)
  unfolding on_messages arrive_all
  on_messages-Ends [] g w l s asc = (refl, s)
  on_messages-Ends (m ∷ ms) g w l s asc =
      let step = on_message-Ends m g w l s asc in
      rw (step.0, on_messages)
        (on_messages-Ends ms _ _ (arrive m l) step.1 (arrive-IsAscending m l asc))
