-- ===== src/Phase0/Session.antt =====
-- `class SecureSession` of phase0/handshake.py. ChaCha20-Poly1305 is the interface `Cipher`. `J` is the
-- type of JSON messages: `dumps` makes the bytes of one, `loads` is `json.loads` of the decoded and
-- stripped bytes.
pub mod Envelope
pub mod Nonces
use census_konantgit_sys_p2p.Prelude.{
  ◌∷◌, [], List, zero, suc, ℕ, String, Option, none, some, ◌++◌, if◌then◌else◌, ◌≡◌, take, ltb,
  length, drop, ◌==◌, ◌/◌, ◌%◌, ◌+◌,
}
use census_konantgit_sys_p2p.Phase0.Hex.{Bytes, fromhex, IsBytes, hex}
use census_konantgit_sys_p2p.Outcome.{
  Outcome, raised, returned, value_error, overflow_error, invalid_tag, assertion_error,
}

-- `decrypt` gives `none` where the library raises `InvalidTag`.
pub record Cipher : Type 0 where
  pub encrypt : (key nonce plaintext : Bytes) → Bytes
  pub decrypt : (key nonce ciphertext : Bytes) → Option Bytes

pub record IsCipher (c : Cipher) : Type 0 where
  pub decrypt-encrypt :
      (key nonce plaintext : Bytes)
      → c.decrypt key nonce (c.encrypt key nonce plaintext) ≡ some plaintext
  pub encrypt_IsBytes : (key nonce plaintext : Bytes) → IsBytes (c.encrypt key nonce plaintext)

pub record SecureSession : Type 0 where
  pub key : Bytes
  pub send_seq : ℕ
  pub recv_seq : ℕ
  pub peer_pubkey_hex : Option String

-- `SecureSession(session_key)`
unfoldable pub new_session : Bytes → Outcome SecureSession
new_session key =
    if length key == 32
    then returned (record { key = key; send_seq = 0; recv_seq = 0; peer_pubkey_hex = none })
    else raised assertion_error

-- `n.to_bytes(4, "big") + b"\x00" * 8` for a number that fits.
unfoldable pub big_endian : ℕ → Bytes
big_endian n =
    n / 16777216 ∷ n / 65536 % 256 ∷ n / 256 % 256 ∷ n % 256 ∷ 0 ∷ 0 ∷ 0 ∷ 0 ∷ 0 ∷ 0 ∷ 0 ∷ 0 ∷ []

-- The nonce of a message; `none` where `to_bytes` raises `OverflowError`.
unfoldable pub nonce_of : ℕ → Option Bytes
nonce_of n = if ltb n 4294967296 then some (big_endian n) else none

module _ (c : Cipher) where
  -- `encrypt`
  unfoldable pub encrypt : Bytes → SecureSession → Outcome Bytes × SecureSession
  unfolding nonce_of
  encrypt plaintext s = elim (nonce_of s.send_seq) [
    | none ↦ (raised overflow_error, s)
    | some nonce ↦ (
      returned (nonce ++ c.encrypt s.key nonce plaintext),
      record s { send_seq = s.send_seq + 1 },
    )
  ]

  -- `decrypt`
  unfoldable pub decrypt : Bytes → SecureSession → Outcome Bytes × SecureSession
  decrypt b s = (
    elim (c.decrypt s.key (take 12 b) (drop 12 b)) [
      | none ↦ raised invalid_tag
      | some plaintext ↦ returned plaintext
    ],
    record s { recv_seq = s.recv_seq + 1 },
  )

  module _ {J : Type 0} (dumps : J → Bytes) (loads : Bytes → Option J) where
    -- `encrypt_json`
    unfoldable pub encrypt_json : J → SecureSession → Outcome Bytes × SecureSession
    unfolding encrypt
    encrypt_json j s = encrypt (dumps j ++ 10 ∷ []) s

    -- What the bytes of a call are turned into, if it returns.
    unfoldable then_hex : Outcome Bytes → Outcome String
    then_hex (returned b) = returned (hex b)
    then_hex (raised e) = raised e

    unfoldable then_loads : Outcome Bytes → Outcome J
    then_loads (returned b) = elim (loads b) [ none ↦ raised value_error | some j ↦ returned j ]
    then_loads (raised e) = raised e

    -- `pack_encrypted`: the field `d` of the envelope.
    unfoldable pub pack_encrypted : J → SecureSession → Outcome String × SecureSession
    unfolding encrypt then_hex
    pack_encrypted j s = let r = encrypt (dumps j ++ 10 ∷ []) s in (then_hex r.0, r.1)

    -- `unpack_encrypted`, of the field `d`.
    unfoldable pub unpack_encrypted : String → SecureSession → Outcome J × SecureSession
    unfolding decrypt then_loads fromhex
    unpack_encrypted d s = elim (fromhex d) [
      | none ↦ (raised value_error, s)
      | some ct ↦ let r = decrypt ct s in (then_loads r.0, r.1)
    ]

    -- Several envelopes unpacked one after the other, whatever comes of each.
    unfoldable pub unpack_all : List String → SecureSession → SecureSession
    unfolding unpack_encrypted
    unpack_all [] s = s
    unpack_all (d ∷ ds) s = unpack_all ds (unpack_encrypted d s).1
