-- ===== src/Phase0/RingBuffer/History.antt =====
-- The ring buffer against the whole history: it holds the last entries, as many as it has room for.
use census_konantgit_sys_p2p.Prelude.{
  ◌∷◌, [], List, ◌++◌, ℕ, ◌≡◌, drop, ◌≤◌, length, ◌+◌, suc, ◌-◌, zero, arith, refl, length-append,
  Bool-cases, min, ltb, length-drop, append-nil, sym, inl, ◌<◌, append_assoc, false, inr, true, ◌∙◌,
  ap,
}
use census_konantgit_sys_p2p.Phase0.RingBuffer.{
  Entry, RingBuffer, push_bounded, new_buffer, append, append_all, recent, last_items,
}

-- The last `n` items of a list; unlike `items[-n:]`, none for 0.
abbrev pub last : {A : Type 0} → ℕ → List A → List A
last n xs = drop (length xs - n) xs

drop-append :
    {A : Type 0} (n : ℕ) (xs ys : List A) → n ≤ length xs → drop n (xs ++ ys) ≡ drop n xs ++ ys
drop-append zero xs ys h = refl
drop-append (suc n) [] ys h = absurd (omega arith)
drop-append (suc n) (x ∷ xs) ys h = drop-append n xs ys (omega arith)

drop-nil : {A : Type 0} (k : ℕ) → ◌≡◌ {A = List A} (drop k []) []
drop-nil zero = refl
drop-nil (suc k) = refl

drop-drop : {A : Type 0} (m n : ℕ) (xs : List A) → drop m (drop n xs) ≡ drop (n + m) xs
drop-drop m zero xs = ap (λ k. drop k xs) (omega arith)
drop-drop m (suc n) [] = drop-nil m ∙ sym (drop-nil (suc n + m))
drop-drop m (suc n) (x ∷ xs) =
    drop-drop m n xs
    ∙ ap (λ k. drop k (x ∷ xs)) (let e : suc (n + m) ≡ suc n + m = omega arith in e)

drop_one-drop : {A : Type 0} (k : ℕ) (xs : List A) → drop 1 (drop k xs) ≡ drop (suc k) xs
drop_one-drop zero xs = refl
drop_one-drop (suc k) [] = refl
drop_one-drop (suc k) (x ∷ xs) = drop_one-drop k xs

length-last : {A : Type 0} (n : ℕ) (xs : List A) → length (last n xs) ≡ min n (length xs)
length-last n xs = rw (length-drop (length xs - n) xs) (omega arith)

length-snoc : {A : Type 0} (x : A) (xs : List A) → length (xs ++ x ∷ []) ≡ length xs + 1
length-snoc x xs = length-append xs (x ∷ [])

push-last :
    {A : Type 0} (n : ℕ) (x : A) (xs : List A)
    → push_bounded n x (last n xs) ≡ last n (xs ++ x ∷ [])
unfolding push_bounded
push-last n x xs =
    let kept = length-last n xs in
    let size = length-snoc x (last n xs) in
    let sum = length-snoc x xs in
    elim (Bool-cases (ltb (length xs) n)) [
      | inl short ↦
          let fits : ltb n (length (last n xs ++ x ∷ [])) ≡ false = ground (arith, kept, size) in
          let none_more : length xs - n ≡ 0 = ground arith in
          let none_left : length (xs ++ x ∷ []) - n ≡ 0 = ground (arith, sum) in
          rw (fits, none_left) (rw none_more refl)
      | inr full ↦
          let over : ltb n (length (last n xs ++ x ∷ [])) ≡ true = ground (arith, kept, size) in
          let one_more : length (xs ++ x ∷ []) - n ≡ suc (length xs - n) = ground (arith, sum) in
          rw (over, one_more)
            (rw (sym (drop-append (length xs - n) xs (x ∷ []) (omega arith)))
              (drop_one-drop (length xs - n) (xs ++ x ∷ [])))
    ]

last-last : {A : Type 0} (m n : ℕ) (xs : List A) → last m (last n xs) ≡ last (min m n) xs
last-last m n xs =
    drop-drop (length (last n xs) - m) (length xs - n) xs
    ∙ ap (λ k. drop k xs) (omega (arith, length-last n xs))

module _ {P : Type 0} where
  recent-last : (n : ℕ) (b : RingBuffer P) → 0 < n → recent n b ≡ last n b.buffer
  unfolding recent last_items
  recent-last zero b h = absurd (omega arith)
  recent-last (suc n) b h = elim (Bool-cases (ltb (suc n) (length b.buffer))) [
    | inl e ↦ rw e refl
    | inr e ↦ let all : length b.buffer - suc n ≡ 0 = ground arith in rw (e, all) refl
  ]

  -- What a buffer of the size `n` holds after the entries `es`.
  record Holds (n : ℕ) (es : List (Entry P)) (b : RingBuffer P) : Type 0 where
    max_size : b.max_size ≡ n
    buffer : b.buffer ≡ last n es
    total : b.total_appended ≡ length es
    dropped : b.total_dropped ≡ length es - n

  append-Holds :
      (n : ℕ) (es : List (Entry P)) (e : Entry P) (b : RingBuffer P)
      → Holds n es b
      → Holds n (es ++ e ∷ []) (append e b)
  unfolding append
  append-Holds n es e b h =
      let sum = length-snoc e es in
      let kept = length-last n es in
      record {
        max_size = h.max_size;
        buffer = rw (h.max_size, h.buffer) (push-last n e es);
        total = omega (arith, sum, h.total);
        dropped = rw (h.max_size, h.buffer) (ground (arith, sum, kept, h.dropped));
      }

  append_all-Holds :
      (n : ℕ) (es fs : List (Entry P)) (b : RingBuffer P)
      → Holds n es b
      → Holds n (es ++ fs) (append_all fs b)
  unfolding append_all
  append_all-Holds n es [] b h = rw (append-nil es) h
  append_all-Holds n es (f ∷ fs) b h =
      rw (sym (append_assoc es (f ∷ []) fs))
        (append_all-Holds n (es ++ f ∷ []) fs (append f b) (append-Holds n es f b h))

  -- After any entries, a new buffer holds exactly the last of them that it has room for, in their order; it has counted all of them, and as dropped those that it does not hold any more; and asking for the last `n`, where `n` is not 0, gives the last `n` of all entries, or what there is of them.
  pub append_all-history :
      (size n : ℕ) (es : List (Entry P))
      → 0 < n
      → let b = append_all es (new_buffer size) in
        (b.buffer ≡ last size es)
        × (b.total_appended ≡ length es)
        × (b.total_dropped ≡ length es - size)
        × (recent n b ≡ last (min n size) es)
  unfolding new_buffer
  append_all-history size n es positive =
      let b = append_all es (new_buffer size) in
      let h = append_all-Holds size [] es (new_buffer size) (record {
        max_size = refl;
        buffer = sym (drop-nil (0 - size));
        total = refl;
        dropped = omega arith;
      }) in
      (
        h.buffer,
        h.total,
        h.dropped,
        recent-last n b positive ∙ ap (last n) h.buffer ∙ last-last n size es,
      )
