-- ===== src/Coordination/ConsumerGroup.antt =====
-- `class ConsumerGroup` of coordination/consumer_group.py. `P` is the type of payloads. A callback is
-- what a call of it does to the world `W`: `_deliver` catches what it raises, so only the change that
-- it made counts, and a callback that calls the group back is not modelled. Sequence numbers and
-- offsets are naturals.
pub mod Sorting
pub mod Lane
pub mod Ordering
pub mod Waiting
pub mod Complete
pub mod Stall
pub mod Frame
pub mod World
use census_konantgit_sys_p2p.Prelude.{
  ℕ, ◌+◌, String, Bool, true, false, Option, none, some, List, [], ◌∷◌, ◌++◌, map, arith, ◌==◌, ltb,
  length, if◌then◌else◌,
}
use census_konantgit_sys_p2p.Dict.{Dict, lookup, get_or, contains, insert, values}
use census_konantgit_sys_p2p.Outcome.{Done, returned, raised, key_error}

abbrev pub Callback : Type 0 → Type 0 → Type 0
Callback P W = P → W → W

-- A buffered message, `{"seq": seq, "payload": payload}`.
pub record Message (P : Type 0) : Type 0 where
  pub seq : ℕ
  pub payload : P

pub record ConsumerGroup (P W : Type 0) : Type 0 where
  pub group_id : String
  pub consumer_id : String
  pub topics : Dict (List (Callback P W))
  pub offsets : Dict ℕ
  pub pending : Dict (List (Message P))

-- Running the callbacks of a list in order.
unfoldable pub run_callbacks : {P W : Type 0} → List (Callback P W) → P → W → W
run_callbacks [] p w = w
run_callbacks (cb ∷ cbs) p w = run_callbacks cbs p (cb p w)

-- Places a message before the first of a greater or equal number, so that sorting is stable.
unfoldable pub insert_by_seq : {P : Type 0} → Message P → List (Message P) → List (Message P)
insert_by_seq m [] = m ∷ []
insert_by_seq m (n ∷ ns) = if ltb n.seq m.seq then n ∷ insert_by_seq m ns else m ∷ n ∷ ns

-- `list.sort(key=lambda x: x["seq"])`: ascending and stable.
unfoldable pub sort_by_seq : {P : Type 0} → List (Message P) → List (Message P)
unfolding insert_by_seq
sort_by_seq [] = []
sort_by_seq (m ∷ ms) = insert_by_seq m (sort_by_seq ms)

module _ {P W : Type 0} where
  -- `__init__`, with the offsets that are handed in.
  unfoldable pub new_group : String → String → Dict ℕ → ConsumerGroup P W
  new_group gid cid offset_store = record {
    group_id = gid;
    consumer_id = cid;
    topics = [];
    offsets = offset_store;
    pending = [];
  }

  -- `get_offset`
  abbrev pub get_offset : String → ConsumerGroup P W → ℕ
  get_offset topic g = get_or topic 0 g.offsets

  unfoldable pub subscribe : String → Callback P W → ConsumerGroup P W → ConsumerGroup P W
  subscribe topic callback g = record g {
    topics = insert topic (get_or topic [] g.topics ++ callback ∷ []) g.topics;
    pending = if contains topic g.pending then g.pending else insert topic [] g.pending;
  }

  -- `_deliver`
  abbrev pub deliver : String → P → ConsumerGroup P W → W → W
  deliver topic payload g w = run_callbacks (get_or topic [] g.topics) payload w

  -- The loop of `_flush_buffer`; the third argument is the buffer, `self._pending[topic]`.
  unfoldable pub flush_from :
      String → ℕ → List (Message P) → ConsumerGroup P W → W → ConsumerGroup P W × W
  flush_from topic expected [] g w = (g, w)
  flush_from topic expected (m ∷ buffer) g w =
      let popped = record g { pending = insert topic buffer g.pending } in
      let rest =
        flush_from topic (expected + 1) buffer
          (record popped { offsets = insert topic expected popped.offsets })
          (deliver topic m.payload popped w) in
      if m.seq == expected then rest else (g, w)

  -- `_flush_buffer`: `self._pending[topic]` is read first.
  unfoldable pub flush_buffer : String → ConsumerGroup P W → W → Done × ConsumerGroup P W × W
  unfolding flush_from
  flush_buffer topic g w = elim (lookup topic g.pending) [
    | none ↦ (raised key_error, g, w)
    | some buffer ↦
        let (g', w') = flush_from topic (get_offset topic g + 1) buffer g w in (returned tt, g', w')
  ]

  -- The branch of `on_message` for a number ahead of the expected one.
  unfoldable pub buffer_message : String → Message P → ConsumerGroup P W → Done × ConsumerGroup P W
  unfolding sort_by_seq
  buffer_message topic m g = elim (lookup topic g.pending) [
    | none ↦ (raised key_error, g)
    | some buffer ↦ (
      returned tt,
      record g { pending = insert topic (sort_by_seq (buffer ++ m ∷ [])) g.pending },
    )
  ]

  unfoldable pub on_message : String → ℕ → P → ConsumerGroup P W → W → Done × ConsumerGroup P W × W
  unfolding flush_buffer buffer_message run_callbacks
  on_message topic seq payload g w =
      let expected = get_offset topic g + 1 in
      if seq == expected
      then flush_buffer topic (record g { offsets = insert topic seq g.offsets })
          (deliver topic payload g w)
      else if ltb expected seq
      then (let (r, g') = buffer_message topic (record { seq = seq; payload = payload }) g in
          (r, g', w))
      else (returned tt, g, w)

  -- A client that hands over messages one after another, and stops at an exception.
  unfoldable pub on_messages :
      String → List (Message P) → ConsumerGroup P W → W → Done × ConsumerGroup P W × W
  unfolding on_message
  on_messages topic [] g w = (returned tt, g, w)
  on_messages topic (m ∷ ms) g w =
      let (r, g', w') = on_message topic m.seq m.payload g w in
      elim r [ returned _ ↦ on_messages topic ms g' w' | raised e ↦ (raised e, g', w') ]

  -- `commit`
  unfoldable pub commit : String → ℕ → ConsumerGroup P W → ConsumerGroup P W
  commit topic seq g =
      if ltb (get_offset topic g) seq then record g { offsets = insert topic seq g.offsets } else g

  unfoldable pub pending_count : String → ConsumerGroup P W → ℕ
  pending_count topic g = length (get_or topic [] g.pending)

abbrev sum_lengths : {P : Type 0} → List (List (Message P)) → ℕ
sum_lengths [] = 0
sum_lengths (l ∷ ls) = length l + sum_lengths ls

-- What `get_state` returns.
pub record GroupState : Type 0 where
  pub group_id : String
  pub consumer_id : String
  pub offsets : Dict ℕ
  pub topics : List String
  pub pending_total : ℕ

unfoldable pub get_state : {P W : Type 0} → ConsumerGroup P W → GroupState
get_state g = record {
  group_id = g.group_id;
  consumer_id = g.consumer_id;
  offsets = g.offsets;
  topics = map (λ e. e.0) g.topics;
  pending_total = sum_lengths (values g.pending);
}

unfoldable pub load_state : {P W : Type 0} → GroupState → ConsumerGroup P W
unfolding new_group
load_state s = new_group s.group_id s.consumer_id s.offsets
