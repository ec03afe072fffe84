-- ===== src/Depin/DeviceLog/Numbers.antt =====
-- The numbers and the hashes of the rows of depin/wal.py.
use census_konantgit_sys_p2p.Prelude.{
  ◌∷◌, [], List, ℕ, String, Option, ◌++◌, Bool-cases, All, ◌<◌, ◌≡◌, inl, inr, ◌||◌, ◌+◌, ltb,
  false, ◌-◌, arith, refl, All-append, eq_iff, ◌*◌,
}
use census_konantgit_sys_p2p.Depin.DeviceLog.{
  Row, DeviceLog, append, cleanup, close, open_log, new_log, has_hash, not_before, time_or,
}

-- What is done to a log.
pub data Act (T : Type 0) : Type 0 where
  appends : (topic : String) (telemetry : T) (ts : Option ℕ) (now : ℕ) → Act T
  cleans : (now : ℕ) → Act T
  closes : Act T
  opens : Act T

module _ {T : Type 0} where
  -- The numbers ascend, and all are below the next one.
  abbrev pub IsAscending : ℕ → List (Row T) → Type 0
  IsAscending next [] = Unit
  IsAscending next (r ∷ rs) = (r.seq < next) × All (λ s. r.seq < s.seq) rs × IsAscending next rs

  -- No hash is there twice.
  abbrev pub IsDistinct : List (Row T) → Type 0
  IsDistinct [] = Unit
  IsDistinct (r ∷ rs) = (has_hash r.hash rs ≡ false) × IsDistinct rs

  abbrev pub IsNumbered : DeviceLog T → Type 0
  IsNumbered l = IsAscending l.next_seq l.rows × IsDistinct l.rows

module _ {T : Type 0} (hash_of : String → String → T → ℕ → String) where
  abbrev pub act : Act T → DeviceLog T → DeviceLog T
  act (appends topic telemetry ts now) l = (append hash_of topic telemetry ts now l).1
  act (cleans now) l = (cleanup now l).1
  act closes l = close l
  act opens l = open_log l

  abbrev pub act_all : List (Act T) → DeviceLog T → DeviceLog T
  act_all [] l = l
  act_all (a ∷ rest) l = act_all rest (act a l)

module _ {T : Type 0} where
  has_hash-append :
      (hash : String) (xs ys : List (Row T))
      → has_hash hash (xs ++ ys) ≡ (has_hash hash xs || has_hash hash ys)
  unfolding has_hash
  has_hash-append hash [] ys = refl
  has_hash-append hash (r ∷ xs) ys = ground (arith, has_hash-append hash xs ys)

  IsDistinct-append :
      (rs : List (Row T)) (r : Row T)
      → IsDistinct rs
      → has_hash r.hash rs ≡ false
      → IsDistinct (rs ++ r ∷ [])
  unfolding has_hash
  IsDistinct-append [] r h new = (refl, tt)
  IsDistinct-append (s ∷ rs) r h new =
      let apart : has_hash s.hash (r ∷ []) ≡ false =
        ground (arith, eq_iff s.hash r.hash, eq_iff r.hash s.hash) in
      (
        rw (has_hash-append s.hash rs (r ∷ [])) (ground (arith, h.0, apart)),
        IsDistinct-append rs r h.1 (ground arith),
      )

  IsAscending-append :
      (next : ℕ) (rs : List (Row T)) (r : Row T)
      → r.seq ≡ next
      → IsAscending next rs
      → IsAscending (next + 1) (rs ++ r ∷ [])
  IsAscending-append next [] r e h = (omega (arith, e), tt, tt)
  IsAscending-append next (s ∷ rs) r e (below, after, h) = (
    omega (arith, below),
    All-append (λ x. s.seq < x.seq) rs (r ∷ []) after (omega (arith, below, e), tt),
    IsAscending-append next rs r e h,
  )

  All-not_before :
      (P : Row T → Type 0) (cutoff : ℕ) (rs : List (Row T))
      → All P rs
      → All P (not_before cutoff rs)
  unfolding not_before
  All-not_before P cutoff [] h = tt
  All-not_before P cutoff (r ∷ rs) h = elim (Bool-cases (ltb r.ts cutoff)) [
    | inl old ↦ rw old (All-not_before P cutoff rs h.1)
    | inr kept ↦ rw kept (h.0, All-not_before P cutoff rs h.1)
  ]

  IsAscending-not_before :
      (next cutoff : ℕ) (rs : List (Row T))
      → IsAscending next rs
      → IsAscending next (not_before cutoff rs)
  unfolding not_before
  IsAscending-not_before next cutoff [] h = tt
  IsAscending-not_before next cutoff (r ∷ rs) (below, after, h) =
      elim (Bool-cases (ltb r.ts cutoff)) [
        | inl old ↦ rw old (IsAscending-not_before next cutoff rs h)
        | inr kept ↦ rw kept (
          below,
          All-not_before (λ s. r.seq < s.seq) cutoff rs after,
          IsAscending-not_before next cutoff rs h,
        )
      ]

  has_hash-not_before :
      (hash : String) (cutoff : ℕ) (rs : List (Row T))
      → has_hash hash rs ≡ false
      → has_hash hash (not_before cutoff rs) ≡ false
  unfolding has_hash not_before
  has_hash-not_before hash cutoff [] h = refl
  has_hash-not_before hash cutoff (r ∷ rs) h = ground (arith, has_hash-not_before hash cutoff rs)

  IsDistinct-not_before :
      (cutoff : ℕ) (rs : List (Row T)) → IsDistinct rs → IsDistinct (not_before cutoff rs)
  unfolding not_before
  IsDistinct-not_before cutoff [] h = tt
  IsDistinct-not_before cutoff (r ∷ rs) h = elim (Bool-cases (ltb r.ts cutoff)) [
    | inl old ↦ rw old (IsDistinct-not_before cutoff rs h.1)
    | inr kept ↦
        rw kept (has_hash-not_before r.hash cutoff rs h.0, IsDistinct-not_before cutoff rs h.1)
  ]

module _ {T : Type 0} (hash_of : String → String → T → ℕ → String) where
  append-IsNumbered :
      (topic : String) (telemetry : T) (ts : Option ℕ) (now : ℕ) (l : DeviceLog T)
      → IsNumbered l
      → IsNumbered (append hash_of topic telemetry ts now l).1
  unfolding append
  append-IsNumbered topic telemetry ts now l h = elim (Bool-cases l.is_open) [
    | inr shut ↦ rw shut h
    | inl ready ↦
        let at = time_or ts now in
        let hash = hash_of l.device_id topic telemetry at in
        rw ready (elim (Bool-cases (has_hash hash l.rows)) [
          | inl there ↦ rw there h
          | inr new ↦
              let row : Row T = record {
                seq = l.next_seq;
                device_id = l.device_id;
                topic = topic;
                telemetry = telemetry;
                ts = at;
                hash = hash;
              } in
              rw new (
                IsAscending-append l.next_seq l.rows row refl h.0,
                IsDistinct-append l.rows row h.1 new,
              )
        ])
  ]

  act-IsNumbered : (a : Act T) (l : DeviceLog T) → IsNumbered l → IsNumbered (act hash_of a l)
  unfolding cleanup close open_log
  act-IsNumbered (appends topic telemetry ts now) l h = append-IsNumbered topic telemetry ts now l h
  act-IsNumbered (cleans now) l h = elim (Bool-cases l.is_open) [
    | inl ready ↦
        let cutoff = now - l.ttl_days * 86400 in
        rw ready (
          IsAscending-not_before l.next_seq cutoff l.rows h.0,
          IsDistinct-not_before cutoff l.rows h.1,
        )
    | inr shut ↦ rw shut h
  ]
  act-IsNumbered closes l h = h
  act-IsNumbered opens l h = h

  -- Whatever is done to a fresh log, its rows have ascending numbers, all below the next one that is given, and no two of them have the same hash.
  pub act_all-IsNumbered :
      (acts : List (Act T)) (device_id : String) (ttl_days : ℕ)
      → IsNumbered (act_all hash_of acts (new_log device_id ttl_days))
  unfolding new_log
  act_all-IsNumbered acts device_id ttl_days = go acts (new_log device_id ttl_days) (tt, tt)
    where
      go :
          (acts : List (Act T)) (l : DeviceLog T)
          → IsNumbered l
          → IsNumbered (act_all hash_of acts l)
      go [] l h = h
      go (a ∷ rest) l h = go rest (act hash_of a l) (act-IsNumbered a l h)
