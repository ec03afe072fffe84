-- ===== src/Phase0/Session/Envelope.antt =====
-- An envelope of phase0/handshake.py is read by the other side, and read again.
use census_konantgit_sys_p2p.Prelude.{
  ◌∷◌, [], List, ℕ, String, Option, some, ◌++◌, ◌<◌, ◌≡◌, take, ◌∙◌, Option-cases, ◌+◌, inl, drop,
  refl, inr, lt→ltb, arith, All-append, sym, ap,
}
use census_konantgit_sys_p2p.Phase0.Session.{
  Cipher, IsCipher, SecureSession, nonce_of, encrypt, decrypt, pack_encrypted, unpack_encrypted,
  unpack_all, then_hex, then_loads, big_endian,
}
use census_konantgit_sys_p2p.Phase0.Hex.{Bytes, fromhex, IsBytes, hex, fromhex-hex}
use census_konantgit_sys_p2p.Outcome.{returned}

big_endian-IsBytes : (n : ℕ) → n < 4294967296 → IsBytes (big_endian n)
unfolding big_endian
big_endian-IsBytes n h =
    let fits : 0 < 256 = omega arith in
    let zeros : IsBytes (0 ∷ 0 ∷ 0 ∷ 0 ∷ 0 ∷ 0 ∷ 0 ∷ 0 ∷ []) =
      (fits, (fits, (fits, (fits, (fits, (fits, (fits, (fits, tt)))))))) in
    (omega (arith, h), (omega arith, (omega arith, (omega arith, zeros))))

nonce_of-some : (n : ℕ) → n < 4294967296 → nonce_of n ≡ some (big_endian n)
unfolding nonce_of
nonce_of-some n h = rw (lt→ltb n 4294967296 h) refl

pub big_endian-split :
    (n : ℕ) (b : Bytes)
    → (take 12 (big_endian n ++ b) ≡ big_endian n) × (drop 12 (big_endian n ++ b) ≡ b)
unfolding big_endian
big_endian-split n b = (refl, refl)

-- What one side encrypts, below 2 ^ 32 messages, the other side decrypts.
pub decrypt-encrypt :
    (c : Cipher) (laws : IsCipher c) (plaintext : Bytes) (s r : SecureSession)
    → s.send_seq < 4294967296
    → s.key ≡ r.key
    → (b : Bytes) × (encrypt c plaintext s ≡ (returned b, record s { send_seq = s.send_seq + 1 }))
      × IsBytes b
      × (decrypt c b r ≡ (returned plaintext, record r { recv_seq = r.recv_seq + 1 }))
unfolding encrypt decrypt
decrypt-encrypt c laws plaintext s r room same =
    let nonce = big_endian s.send_seq in
    let ct = c.encrypt s.key nonce plaintext in
    let (head, tail) = big_endian-split s.send_seq ct in
    let back : c.decrypt r.key (take 12 (nonce ++ ct)) (drop 12 (nonce ++ ct)) ≡ some plaintext =
      rw (head, tail, sym same) (laws.decrypt-encrypt s.key nonce plaintext) in
    (
      nonce ++ ct,
      rw (nonce_of-some s.send_seq room, encrypt) refl,
      All-append (λ b. b < 256) nonce ct (big_endian-IsBytes s.send_seq room)
          (laws.encrypt_IsBytes s.key nonce plaintext),
      rw (back, decrypt) refl,
    )

module _ (c : Cipher) {J : Type 0} (dumps : J → Bytes) (loads : Bytes → Option J) where
  unpack_encrypted_of :
      (d : String) (ct plaintext : Bytes) (j : J) (r r' : SecureSession)
      → fromhex d ≡ some ct
      → decrypt c ct r ≡ (returned plaintext, r')
      → loads plaintext ≡ some j
      → unpack_encrypted c dumps loads d r ≡ (returned j, r')
  unfolding unpack_encrypted then_loads
  unpack_encrypted_of d ct plaintext j r r' h e l =
      rw (h, unpack_encrypted)
        (ap (λ x. (then_loads c dumps loads x.0, x.1)) e ∙ rw (l, then_loads) refl)

  -- A message that one side packs, below 2 ^ 32 messages sent, is what the other side, with the same key, unpacks; the sender's counter and the receiver's each advance by one.
  pub unpack-pack_encrypted :
      (laws : IsCipher c) (read : (j : J) → loads (dumps j ++ 10 ∷ []) ≡ some j) (j : J)
      (s r : SecureSession)
      → s.send_seq < 4294967296
      → s.key ≡ r.key
      → (d : String) × (pack_encrypted c dumps loads j s
          ≡ (returned d, record s { send_seq = s.send_seq + 1 }))
        × (unpack_encrypted c dumps loads d r
            ≡ (returned j, record r { recv_seq = r.recv_seq + 1 }))
  unfolding pack_encrypted then_hex
  unpack-pack_encrypted laws read j s r room same =
      let plaintext = dumps j ++ 10 ∷ [] in
      let (b, sent, is_bytes, got) = decrypt-encrypt c laws plaintext s r room same in
      (
        hex b,
        rw sent refl,
        unpack_encrypted_of (hex b) b plaintext j r (record r { recv_seq = r.recv_seq + 1 })
            (fromhex-hex b is_bytes) got (read j),
      )

  unpack_encrypted-key :
      (d : String) (r : SecureSession) → (unpack_encrypted c dumps loads d r).1.key ≡ r.key
  unfolding unpack_encrypted decrypt
  unpack_encrypted-key d r = elim (Option-cases (fromhex d)) [
    | inl e ↦ rw (e, unpack_encrypted) refl
    | inr (ct, e) ↦ rw (e, unpack_encrypted) refl
  ]

  unpack_all-key :
      (ds : List String) (r : SecureSession) → (unpack_all c dumps loads ds r).key ≡ r.key
  unfolding unpack_all
  unpack_all-key [] r = refl
  unpack_all-key (d ∷ ds) r =
      unpack_all-key ds (unpack_encrypted c dumps loads d r).1 ∙ unpack_encrypted-key d r

  unpack_encrypted_same :
      (d : String) (r s : SecureSession)
      → r.key ≡ s.key
      → (unpack_encrypted c dumps loads d r).0 ≡ (unpack_encrypted c dumps loads d s).0
  unfolding unpack_encrypted decrypt then_loads
  unpack_encrypted_same d r s same = elim (Option-cases (fromhex d)) [
    | inl e ↦ rw (e, unpack_encrypted) refl
    | inr (ct, e) ↦ rw (e, unpack_encrypted) (rw same refl)
  ]

  -- What an envelope is unpacked to does not depend on what was unpacked before it: after any other envelopes, and after itself, the same message comes out once more.
  unpack_encrypted_again :
      (d : String) (ds : List String) (r : SecureSession)
      → (unpack_encrypted c dumps loads d (unpack_all c dumps loads (d ∷ ds) r)).0
        ≡ (unpack_encrypted c dumps loads d r).0
  unpack_encrypted_again d ds r =
      unpack_encrypted_same d (unpack_all c dumps loads (d ∷ ds) r) r (unpack_all-key (d ∷ ds) r)
