-- ===== src/Phase0/Session/Nonces.antt =====
-- The nonces of a session of phase0/handshake.py, by the number of a message.
use census_konantgit_sys_p2p.Prelude.{
  ◌∷◌, [], List, zero, suc, ℕ, ◌++◌, ◌≡◌, ◌<◌, sym, ◌/◌, take, ◌∙◌, ◌%◌, ◌↔◌, ap, arith, Bool-cases,
  ltb, inl, ltb→lt, inr, refl, ◌+◌, get_elem?, ◌⊎◌, some, ◌≤◌,
}
use census_konantgit_sys_p2p.Phase0.Session.{Cipher, SecureSession, nonce_of, encrypt, big_endian}
use census_konantgit_sys_p2p.Phase0.Hex.{Bytes}
use census_konantgit_sys_p2p.Outcome.{returned, raised, overflow_error, Outcome}
use census_konantgit_sys_p2p.Phase0.Session.Envelope.{big_endian-split}

abbrev get_or_zero : List ℕ → ℕ → ℕ
get_or_zero [] i = 0
get_or_zero (x ∷ xs) zero = x
get_or_zero (x ∷ xs) (suc i) = get_or_zero xs i

big_endian-injective :
    (m n : ℕ) → m < 4294967296 → n < 4294967296 → big_endian m ≡ big_endian n → m ≡ n
unfolding big_endian
big_endian-injective m n hm hn same =
    let a : m / 16777216 ≡ n / 16777216 = ap (λ l. get_or_zero l 0) same in
    let b : m / 65536 % 256 ≡ n / 65536 % 256 = ap (λ l. get_or_zero l 1) same in
    let c : m / 256 % 256 ≡ n / 256 % 256 = ap (λ l. get_or_zero l 2) same in
    let d : m % 256 ≡ n % 256 = ap (λ l. get_or_zero l 3) same in omega (arith, a, b, c, d)

encrypt-nonce :
    (c : Cipher) (p a : Bytes) (s : SecureSession)
    → (encrypt c p s).0 ≡ returned a
    → (s.send_seq < 4294967296) × (take 12 a ≡ big_endian s.send_seq)
unfolding encrypt nonce_of
encrypt-nonce c p a s h = elim (Bool-cases (ltb s.send_seq 4294967296)) [
  | inl small ↦
      let n = s.send_seq in
      let ct = c.encrypt s.key (big_endian n) p in
      let sent : (encrypt c p s).0 ≡ returned (big_endian n ++ ct) = rw (small, encrypt) refl in
      let same : big_endian n ++ ct ≡ a = cc in
      (ltb→lt n 4294967296 small, ap (take 12) (sym same) ∙ (big_endian-split n ct).0)
  | inr full ↦
      let none_sent : (encrypt c p s).0 ≡ raised overflow_error = rw (full, encrypt) refl in cc
]

-- What comes of encrypting several messages one after the other.
abbrev pub encrypt_all : Cipher → List Bytes → SecureSession → List (Outcome Bytes)
encrypt_all c [] s = []
encrypt_all c (p ∷ ps) s = (encrypt c p s).0 ∷ encrypt_all c ps (encrypt c p s).1

encrypt-session :
    (c : Cipher) (p : Bytes) (s : SecureSession)
    → ((encrypt c p s).1.send_seq ≡ s.send_seq + 1)
      ⊎ ((4294967296 ≤ s.send_seq) × ((encrypt c p s).1 ≡ s))
unfolding encrypt nonce_of
encrypt-session c p s = elim (Bool-cases (ltb s.send_seq 4294967296)) [
  | inl small ↦ inl (rw (small, encrypt) refl)
  | inr full ↦ inr (ground (arith, full), rw (full, encrypt) refl)
]

encrypt_all-nonce :
    (c : Cipher) (ps : List Bytes) (i : ℕ) (a : Bytes) (s : SecureSession)
    → get_elem? (encrypt_all c ps s) i ≡ some (returned a)
    → (s.send_seq + i < 4294967296) × (take 12 a ≡ big_endian (s.send_seq + i))
encrypt_all-nonce c [] i a s h = cc
encrypt_all-nonce c (p ∷ ps) zero a s h =
    let (small, same) = encrypt-nonce c p a s (cc (h)) in
    (omega (arith, small), same ∙ ap big_endian (omega arith))
encrypt_all-nonce c (p ∷ ps) (suc i) a s h =
    let (small, same) = encrypt_all-nonce c ps i a (encrypt c p s).1 h in
    elim (encrypt-session c p s) [
      | inl counted ↦ (omega (arith, small, counted), same ∙ ap big_endian (omega (arith, counted)))
      | inr (full, stays) ↦ absurd (omega (arith, small, full, ap (λ t. t.send_seq) stays))
    ]

-- Two sessions each encrypt several messages one after the other. The results for the `i`-th of one session and the `j`-th of the other, both counted from 0, where both return, begin with the same nonce exactly if the counters the sessions began with, plus `i` and `j`, are the same. Within one session this is so for `i` the same as `j` only; between two sessions whose counters begin alike it is so for every `i` the same as `j`, whatever their keys are.
pub encrypt_all-nonces :
    (c : Cipher) (ps qs : List Bytes) (i j : ℕ) (a b : Bytes) (s t : SecureSession)
    → get_elem? (encrypt_all c ps s) i ≡ some (returned a)
    → get_elem? (encrypt_all c qs t) j ≡ some (returned b)
    → (take 12 a ≡ take 12 b) ↔ (s.send_seq + i ≡ t.send_seq + j)
encrypt_all-nonces c ps qs i j a b s t ea eb =
    let (small, na) = encrypt_all-nonce c ps i a s ea in
    let (small', nb) = encrypt_all-nonce c qs j b t eb in
    (
      λ same.
          big_endian-injective (s.send_seq + i) (t.send_seq + j) small small' (sym na ∙ same ∙ nb),
      λ same. na ∙ ap big_endian same ∙ sym nb,
    )
