-- ===== src/Phase0/Wal/Replay.antt =====
-- `replay`: which messages a device that comes back is given.
use census_konantgit_sys_p2p.Prelude.{
  ◌∷◌, [], List, zero, suc, ℕ, All, ◌≤◌, Bool-cases, String, ◌<◌, take, ◌≡◌, ◌≢◌, ltb, str_eq, inl,
  eq_iff, arith, some, inr, ltb→lt, length, All-imp, length-take, str_eq-false,
}
use census_konantgit_sys_p2p.Phase0.Wal.{
  Row, WalBuffer, order_by_ts, of_topic, insert_by_ts, after_ts, replay, ts_of,
}

module _ {P : Type 0} where
  of_topic-All :
      (topic : String) (rs : List (Row P)) → All (λ r. r.topic ≡ topic) (of_topic topic rs)
  unfolding of_topic
  of_topic-All topic [] = tt
  of_topic-All topic (r ∷ rs) = elim (Bool-cases (str_eq r.topic topic)) [
    | inl same ↦ rw same ((eq_iff r.topic topic).0 same, of_topic-All topic rs)
    | inr differ ↦ rw differ (of_topic-All topic rs)
  ]

  module _ (Q : Row P → Type 0) where
    after_ts-All :
        (since : ℕ) (rs : List (Row P))
        → All Q rs
        → All (λ r. (since < r.ts) × Q r) (after_ts since rs)
    unfolding after_ts
    after_ts-All since [] h = tt
    after_ts-All since (r ∷ rs) h = elim (Bool-cases (ltb since r.ts)) [
      | inl later ↦ rw later ((ltb→lt since r.ts later, h.0), after_ts-All since rs h.1)
      | inr early ↦ rw early (after_ts-All since rs h.1)
    ]

    insert_by_ts-All : (r : Row P) (rs : List (Row P)) → Q r → All Q rs → All Q (insert_by_ts r rs)
    unfolding insert_by_ts
    insert_by_ts-All r [] q h = (q, tt)
    insert_by_ts-All r (s ∷ rs) q h = elim (Bool-cases (ltb s.ts r.ts)) [
      | inl later ↦ rw later (h.0, insert_by_ts-All r rs q h.1)
      | inr first ↦ rw first (q, h)
    ]

    order_by_ts-All : (rs : List (Row P)) → All Q rs → All Q (order_by_ts rs)
    unfolding order_by_ts
    order_by_ts-All [] h = tt
    order_by_ts-All (r ∷ rs) h = insert_by_ts-All r (order_by_ts rs) h.0 (order_by_ts-All rs h.1)

    take-All : (n : ℕ) (rs : List (Row P)) → All Q rs → All Q (take n rs)
    take-All zero rs h = tt
    take-All (suc n) [] h = tt
    take-All (suc n) (r ∷ rs) h = (h.0, take-All n rs h.1)

  abbrev pub IsOrdered : List (Row P) → Type 0
  IsOrdered [] = Unit
  IsOrdered (r ∷ rs) = All (λ s. r.ts ≤ s.ts) rs × IsOrdered rs

  insert_by_ts-IsOrdered :
      (r : Row P) (rs : List (Row P)) → IsOrdered rs → IsOrdered (insert_by_ts r rs)
  unfolding insert_by_ts
  insert_by_ts-IsOrdered r [] h = (tt, tt)
  insert_by_ts-IsOrdered r (s ∷ rs) h = elim (Bool-cases (ltb s.ts r.ts)) [
    | inl later ↦ rw later (
      insert_by_ts-All (λ x. s.ts ≤ x.ts) r rs (ground arith) h.0,
      insert_by_ts-IsOrdered r rs h.1,
    )
    | inr first ↦
        let le : r.ts ≤ s.ts = ground arith in
        rw first ((le, All-imp (λ x before. omega (arith, le, before)) rs h.0), h)
  ]

  order_by_ts-IsOrdered : (rs : List (Row P)) → IsOrdered (order_by_ts rs)
  unfolding order_by_ts
  order_by_ts-IsOrdered [] = tt
  order_by_ts-IsOrdered (r ∷ rs) =
      insert_by_ts-IsOrdered r (order_by_ts rs) (order_by_ts-IsOrdered rs)

  take-IsOrdered : (n : ℕ) (rs : List (Row P)) → IsOrdered rs → IsOrdered (take n rs)
  take-IsOrdered zero rs h = tt
  take-IsOrdered (suc n) [] h = tt
  take-IsOrdered (suc n) (r ∷ rs) h =
      (take-All (λ s. r.ts ≤ s.ts) n rs h.0, take-IsOrdered n rs h.1)

  -- A replay from a message on gives messages of the topic only, in the order of their times, at most as many as the limit, and all of them later than that message: one with the same time is not given.
  pub replay-After :
      (topic id : String) (since limit : ℕ) (w : WalBuffer P)
      → id ≢ ""
      → ts_of id w.rows ≡ some since
      → let given = replay topic (some id) limit w in
        All (λ r. (since < r.ts) × (r.topic ≡ topic)) given
        × IsOrdered given
        × (length given ≤ limit)
  unfolding replay
  replay-After topic id since limit w named known =
      let found = after_ts since (of_topic topic w.rows) in
      let size = length-take limit (order_by_ts found) in
      rw (str_eq-false id "" named, known)
        (
          take-All _ limit (order_by_ts found) (
              order_by_ts-All _ found (
                after_ts-All (λ r. r.topic ≡ topic) since (of_topic topic w.rows)
                  (of_topic-All topic w.rows))),
          take-IsOrdered limit (order_by_ts found) (order_by_ts-IsOrdered found),
          omega (arith, size),
        )
