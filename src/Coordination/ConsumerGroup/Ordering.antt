-- ===== src/Coordination/ConsumerGroup/Ordering.antt =====
-- Ordered delivery: whatever the order and the repetitions in which the messages of a topic come,
-- the subscribers see the payloads of consecutive numbers, each once.
use census_konantgit_sys_p2p.Prelude.{
  ℕ, String, List, [], ◌∷◌, Bool-cases, ◌==◌, suc, ◌≡◌, ◌≤◌, ◌-◌, arith, ◌+◌, ◌++◌, some, inl, ◌∙◌,
  ap, inr, ltb, zero, refl,
}
use census_konantgit_sys_p2p.Coordination.ConsumerGroup.Lane.{
  deliver_all, arrive, Lane, arrive_all, drain, Shows, on_messages-Ends,
}
use census_konantgit_sys_p2p.Coordination.ConsumerGroup.Sorting.{place}
use census_konantgit_sys_p2p.Coordination.ConsumerGroup.{
  ConsumerGroup, Message, get_offset, on_messages,
}
use census_konantgit_sys_p2p.Dict.{lookup, get_or}
use census_konantgit_sys_p2p.Outcome.{returned}

module _ {P : Type 0} (pay : ℕ → P) where
  -- The payloads of the `n` numbers that follow `o`.
  abbrev pub payloads : ℕ → ℕ → List P
  payloads o zero = []
  payloads o (suc n) = payloads o n ++ pay (o + suc n) ∷ []

  -- Every message carries the payload of its number.
  abbrev pub Carries : List (Message P) → Type 0
  Carries [] = Unit
  Carries (m ∷ ms) = (m.payload ≡ pay m.seq) × Carries ms

  place-Carries :
      (m : Message P) (ms : List (Message P))
      → m.payload ≡ pay m.seq
      → Carries ms
      → Carries (place m ms)
  unfolding place
  place-Carries m [] e h = (e, tt)
  place-Carries m (n ∷ ns) e h = ground (arith, place-Carries m ns e h.1)

  -- What the lane has delivered since the offset `o`.
  pub record IsGapless (o : ℕ) (l : Lane P) : Type 0 where
    pub progress : o ≤ l.offset
    pub delivered : l.delivered ≡ payloads o (l.offset - o)
    pub carries : Carries l.buffer

  snoc_payloads :
      (o k : ℕ) (ds : List P) (p : P)
      → o ≤ k
      → ds ≡ payloads o (k - o)
      → p ≡ pay (k + 1)
      → ds ++ p ∷ [] ≡ payloads o (k + 1 - o)
  snoc_payloads o k ds p h e c =
      let step : k + 1 - o ≡ suc (k - o) = omega arith in
      let same : o + suc (k - o) ≡ k + 1 = omega arith in rw step (rw same (rw (e, c)))

  drain-IsGapless :
      (o : ℕ) (ms : List (Message P)) (l : Lane P)
      → Carries ms
      → IsGapless o l
      → IsGapless o (drain ms l)
  unfolding drain
  drain-IsGapless o [] l c h = record {
    progress = h.progress;
    delivered = h.delivered;
    carries = tt;
  }
  drain-IsGapless o (m ∷ ms) l c h = elim (Bool-cases (m.seq == l.offset + 1)) [
    | inl e ↦ rw e (
        drain-IsGapless o ms _ c.1 (record {
          progress = omega (arith, h.progress);
          delivered =
              snoc_payloads o l.offset l.delivered m.payload h.progress h.delivered
                (let at : m.seq ≡ l.offset + 1 = ground arith in c.0 ∙ ap pay at);
          carries = c.1;
        }))
    | inr e ↦ rw e (record { progress = h.progress; delivered = h.delivered; carries = c })
  ]

  arrive-IsGapless :
      (o : ℕ) (m : Message P) (l : Lane P)
      → m.payload ≡ pay m.seq
      → IsGapless o l
      → IsGapless o (arrive m l)
  unfolding arrive
  arrive-IsGapless o m l c h = elim (Bool-cases (m.seq == l.offset + 1)) [
    | inl e ↦
        let at : m.seq ≡ l.offset + 1 = ground arith in
        rw e (
          drain-IsGapless o l.buffer _ h.carries (record {
            progress = omega (arith, h.progress);
            delivered = rw at (
                snoc_payloads o l.offset l.delivered m.payload h.progress h.delivered
                  (c ∙ ap pay at));
            carries = h.carries;
          }))
    | inr e ↦ rw e (elim (Bool-cases (ltb (l.offset + 1) m.seq)) [
      | inl ahead ↦ rw ahead (record {
        progress = h.progress;
        delivered = h.delivered;
        carries = place-Carries m l.buffer c h.carries;
      })
      | inr old ↦ rw old h
    ])
  ]

  arrive_all-IsGapless :
      (o : ℕ) (ms : List (Message P)) (l : Lane P)
      → Carries ms
      → IsGapless o l
      → IsGapless o (arrive_all ms l)
  unfolding arrive_all
  arrive_all-IsGapless o [] l c h = h
  arrive_all-IsGapless o (m ∷ ms) l c h =
      arrive_all-IsGapless o ms (arrive m l) c.1 (arrive-IsGapless o m l c.0 h)

module _ {P W : Type 0} where
  -- A group that has subscribed to the topic and has nothing buffered for it.
  pub record IsIdle (topic : String) (g : ConsumerGroup P W) : Type 0 where
    pub subscribed : lookup topic g.pending ≡ some []

  abbrev pub start_lane : String → ConsumerGroup P W → Lane P
  start_lane topic g = record { offset = get_offset topic g; buffer = []; delivered = [] }

  pub start-Shows :
      (topic : String) (g : ConsumerGroup P W) (w : W)
      → IsIdle topic g
      → Shows topic (get_or topic [] g.topics) w g w (start_lane topic g)
  unfolding deliver_all
  start-Shows topic g w idle = record {
    callbacks = refl;
    offset = refl;
    buffer = idle.subscribed;
    world = refl;
  }

  -- From an idle group, any sequence of messages of one topic, in any order and with any repetitions, is taken without an exception, and the subscribers of the topic have been handed exactly the payloads of the numbers from the old offset up to the new one, in order, each once; each number is taken to have one payload.
  pub on_messages_in_order :
      (pay : ℕ → P) (topic : String) (ms : List (Message P)) (g : ConsumerGroup P W) (w : W)
      → IsIdle topic g
      → Carries pay ms
      → let (r, g', w') = on_messages topic ms g w in
        (r ≡ returned tt)
        × (get_offset topic g ≤ get_offset topic g')
        × (w'
            ≡ deliver_all
                (get_or topic [] g.topics)
                (payloads pay (get_offset topic g) (get_offset topic g' - get_offset topic g))
                w)
  on_messages_in_order pay topic ms g w idle c =
      let ends =
        on_messages-Ends topic (get_or topic [] g.topics) w ms g w (start_lane topic g)
          (start-Shows topic g w idle) tt in
      let gapless =
        arrive_all-IsGapless pay (get_offset topic g) ms (start_lane topic g) c (record {
          progress = omega arith;
          delivered = let e : get_offset topic g - get_offset topic g ≡ 0 = omega arith in rw e;
          carries = tt;
        }) in
      (
        ends.0,
        rw ends.1.offset gapless.progress,
        rw (ends.1.offset, ends.1.world) (rw gapless.delivered),
      )
