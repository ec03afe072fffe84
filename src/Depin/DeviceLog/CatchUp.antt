-- ===== src/Depin/DeviceLog/CatchUp.antt =====
-- Reading on in the log of depin/wal.py from the last number that was seen.
use census_konantgit_sys_p2p.Prelude.{
  ◌∷◌, [], List, ℕ, String, Option, ◌++◌, ◌<◌, All, ◌≡◌, ◌≤◌, Bool-cases, sym, lt→ltb, str_eq,
  arith, ltb-false, inl, true, refl, append-nil, ap, inr, eq_iff, ◌∙◌, append_assoc, All-append,
  All-imp,
}
use census_konantgit_sys_p2p.Depin.DeviceLog.{
  Row, DeviceLog, append, last_seq, get_since, of_device, after_seq, max_seq, has_hash, time_or,
}
use census_konantgit_sys_p2p.Depin.DeviceLog.Numbers.{IsAscending, IsNumbered}
use census_konantgit_sys_p2p.Outcome.{returned}

-- A measurement: topic, telemetry, time and the time at which it is appended.
abbrev pub Measurement : Type 0 → Type 0
Measurement T = String × T × Option ℕ × ℕ

module _ {T : Type 0} where
  of_device-append :
      (id : String) (xs ys : List (Row T))
      → of_device id (xs ++ ys) ≡ of_device id xs ++ of_device id ys
  unfolding of_device
  of_device-append id [] ys = refl
  of_device-append id (r ∷ xs) ys = ground (arith, of_device-append id xs ys)

  after_seq-append :
      (n : ℕ) (xs ys : List (Row T)) → after_seq n (xs ++ ys) ≡ after_seq n xs ++ after_seq n ys
  unfolding after_seq
  after_seq-append n [] ys = refl
  after_seq-append n (r ∷ xs) ys = ground (arith, after_seq-append n xs ys)

  All-of_device :
      (P : Row T → Type 0) (id : String) (rs : List (Row T)) → All P rs → All P (of_device id rs)
  unfolding of_device
  All-of_device P id [] h = tt
  All-of_device P id (r ∷ rs) h = elim (Bool-cases (str_eq r.device_id id)) [
    | inl own ↦ rw own (h.0, All-of_device P id rs h.1)
    | inr other ↦ rw other (All-of_device P id rs h.1)
  ]

  of_device-own :
      (id : String) (rs : List (Row T)) → All (λ r. r.device_id ≡ id) rs → of_device id rs ≡ rs
  unfolding of_device
  of_device-own id [] h = refl
  of_device-own id (r ∷ rs) h =
      let own : str_eq r.device_id id ≡ true = (eq_iff r.device_id id).1 h.0 in
      rw own (ap (◌∷◌ r) (of_device-own id rs h.1))

  after_seq-later : (n : ℕ) (rs : List (Row T)) → All (λ r. n < r.seq) rs → after_seq n rs ≡ rs
  unfolding after_seq
  after_seq-later n [] h = refl
  after_seq-later n (r ∷ rs) h = rw (lt→ltb n r.seq h.0) (ap (◌∷◌ r) (after_seq-later n rs h.1))

  after_seq-none : (n : ℕ) (rs : List (Row T)) → max_seq rs ≤ n → after_seq n rs ≡ []
  unfolding after_seq max_seq
  after_seq-none n [] h = refl
  after_seq-none n (r ∷ rs) h =
      rw (ltb-false n r.seq (omega (arith, h))) (after_seq-none n rs (omega (arith, h)))

  max_seq-below :
      (next : ℕ) (rs : List (Row T)) → 0 < next → All (λ r. r.seq < next) rs → max_seq rs < next
  unfolding max_seq
  max_seq-below next [] first h = first
  max_seq-below next (r ∷ rs) first h = omega (arith, max_seq-below next rs first h.1, h.0)

  IsAscending-below :
      (next : ℕ) (rs : List (Row T)) → IsAscending next rs → All (λ r. r.seq < next) rs
  IsAscending-below next [] h = tt
  IsAscending-below next (r ∷ rs) (below, after, h) = (below, IsAscending-below next rs h)

module _ {T : Type 0} (hash_of : String → String → T → ℕ → String) where
  abbrev pub append_all : List (Measurement T) → DeviceLog T → DeviceLog T
  append_all [] l = l
  append_all ((topic, telemetry, ts, now) ∷ ms) l =
      append_all ms (append hash_of topic telemetry ts now l).1

  -- What the appends add: rows of this device with numbers from `n` on.
  abbrev pub Adds : ℕ → DeviceLog T → DeviceLog T → List (Row T) → Type 0
  Adds n l l' new =
      (l'.rows ≡ l.rows ++ new)
      × (l'.is_open ≡ l.is_open)
      × (l'.device_id ≡ l.device_id)
      × All (λ r. n ≤ r.seq) new
      × All (λ r. r.device_id ≡ l.device_id) new

  append-Adds :
      (topic : String) (telemetry : T) (ts : Option ℕ) (now : ℕ) (l : DeviceLog T)
      → let l' = (append hash_of topic telemetry ts now l).1 in
        (new : List (Row T)) × Adds l.next_seq l l' new × (l.next_seq ≤ l'.next_seq)
  unfolding append
  append-Adds topic telemetry ts now l = elim (Bool-cases l.is_open) [
    | inr shut ↦ rw shut ([], (sym (append-nil l.rows), refl, refl, tt, tt), omega arith)
    | inl ready ↦
        let hash = hash_of l.device_id topic telemetry (time_or ts now) in
        rw ready (elim (Bool-cases (has_hash hash l.rows)) [
          | inl there ↦ rw there ([], (sym (append-nil l.rows), refl, refl, tt, tt), omega arith)
          | inr new ↦
              rw new (_ ∷ [], (refl, refl, refl, (omega arith, tt), (refl, tt)), omega arith)
        ])
  ]

  append_all-Adds :
      (ms : List (Measurement T)) (l : DeviceLog T)
      → (new : List (Row T)) × Adds l.next_seq l (append_all ms l) new
  append_all-Adds [] l = ([], (sym (append-nil l.rows), refl, refl, tt, tt))
  append_all-Adds ((topic, telemetry, ts, now) ∷ ms) l =
      let l' = (append hash_of topic telemetry ts now l).1 in
      let (first, (rows, opened, own, numbers, device), grows) =
        append-Adds topic telemetry ts now l in
      let (rest, (rows', opened', own', numbers', device')) = append_all-Adds ms l' in
      (
        first ++ rest,
        (
          rows' ∙ ap (λ rs. rs ++ rest) rows ∙ append_assoc l.rows first rest,
          opened' ∙ opened,
          own' ∙ own,
          All-append (λ r. l.next_seq ≤ r.seq) first rest numbers
              (All-imp (λ r le. omega (arith, le, grows)) rest numbers'),
          All-append (λ r. r.device_id ≡ l.device_id) first rest device
              (All-imp (λ r e. e ∙ own) rest device'),
        ),
      )

  -- A reader that has seen an open log up to its last number: after any further measurements, `get_since` of that number gives just the rows that they have added, in their order.
  get_since-append_all :
      (ms : List (Measurement T)) (l : DeviceLog T) (n : ℕ)
      → l.is_open ≡ true
      → 0 < l.next_seq
      → IsNumbered l
      → last_seq l ≡ returned n
      → (new : List (Row T)) × ((append_all ms l).rows ≡ l.rows ++ new)
        × (get_since n (append_all ms l) ≡ returned new)
  unfolding last_seq get_since
  get_since-append_all ms l n ready some_row numbered seen =
      let (new, (rows, opened, own, numbers, device)) = append_all-Adds ms l in
      let mine = of_device l.device_id l.rows in
      let last : last_seq l ≡ returned (max_seq mine) = rw ready refl in
      let top : max_seq mine ≡ n = cc in
      let below = max_seq-below l.next_seq mine some_row (
        All-of_device (λ r. r.seq < l.next_seq) l.device_id l.rows
          (IsAscending-below l.next_seq l.rows numbered.0)) in
      let later : All (λ r. n < r.seq) new =
        All-imp (λ r le. omega (arith, le, below, top)) new numbers in
      let rest : after_seq n mine ++ after_seq n (of_device l.device_id new) ≡ new =
        rw (after_seq-none n mine (omega (arith, top)), of_device-own l.device_id new device)
          (after_seq-later n new later) in
      (
        new,
        rows,
        rw (opened ∙ ready) (
            rw (rows, own)
              (ap returned (
                ap (after_seq n) (of_device-append l.device_id l.rows new)
                ∙ after_seq-append n mine (of_device l.device_id new)
                ∙ rest))),
      )
