-- ===== src/Phase0/Identity.antt =====
-- `class Identity` of phase0/identity.py. What the library `cryptography` does is the interface
-- `Signatures`: `S` is the type of its private keys, and a public key and a signature are bytes. The
-- canonical JSON of the signed fields is the parameter `canonical`.
pub mod Signed
use Prim.Native.String.{◌++◌ as text_append, slice}
use census_konantgit_sys_p2p.Prelude.{
  ◌∷◌, [], List, zero, suc, ℕ, String, Option, none, some, Bool, false, ◌≡◌, if◌then◌else◌, ◌&&◌,
  true, length,
}
use census_konantgit_sys_p2p.Phase0.Hex.{hex, IsBytes, Bytes, fromhex}
use census_konantgit_sys_p2p.Outcome.{Outcome, returned, raised, key_error}

-- Ed25519: `verify` gives `false` where the library raises `InvalidSignature`, `is_public` says that
-- `from_public_bytes` takes the bytes.
pub record Signatures (S : Type 0) : Type 0 where
  pub public_bytes : S → Bytes
  pub sign : S → Bytes → Bytes
  pub is_public : Bytes → Bool
  pub verify : Bytes → Bytes → Bytes → Bool

-- What the library documents of them.
pub record IsSigning {S : Type 0} (ed : Signatures S) : Type 0 where
  pub public_IsBytes : (k : S) → IsBytes (ed.public_bytes k)
  pub public_length : (k : S) → length (ed.public_bytes k) ≡ 32
  pub public_taken : (k : S) → ed.is_public (ed.public_bytes k) ≡ true
  pub sign_IsBytes : (k : S) (m : Bytes) → IsBytes (ed.sign k m)
  pub sign_length : (k : S) (m : Bytes) → length (ed.sign k m) ≡ 64
  pub verify-sign : (k : S) (m : Bytes) → ed.verify (ed.public_bytes k) (ed.sign k m) m ≡ true

-- A message, a dictionary of which the code reads these fields.
pub record Message (B : Type 0) : Type 0 where
  pub topic : Option String
  pub payload : Option B
  pub from : Option String
  pub ts : Option ℕ
  pub pubkey : Option String
  pub signature : Option String

-- The fields that are signed.
pub record Fields (B : Type 0) : Type 0 where
  pub topic : Option String
  pub payload : Option B
  pub from : Option String
  pub ts : Option ℕ

abbrev pub text_or : Option String → String
text_or none = ""
text_or (some s) = s

abbrev pub is_some {ℓ} : {A : Type ℓ} → Option A → Bool
is_some none = false
is_some (some _) = true

-- `{k: msg[k] for k in [...] if k in msg}`
abbrev pub signed_fields : {B : Type 0} → Message B → Fields B
signed_fields m = record { topic = m.topic; payload = m.payload; from = m.from; ts = m.ts }

module _ {S : Type 0} (ed : Signatures S) where
  -- `public_key_hex`
  unfoldable pub public_key_hex : S → String
  public_key_hex k = hex (ed.public_bytes k)

  -- `did`
  unfoldable pub did : S → String
  did k = text_append "did:snin:" (slice (hex (ed.public_bytes k)) 0 16)

  -- `sign`
  unfoldable pub sign : S → Bytes → String
  sign k m = hex (ed.sign k m)

  module _ {B : Type 0} (canonical : Fields B → Bytes) where
    -- `sign_message`: a missing topic or payload is a `KeyError`, after the first three fields of the
    -- message have been set.
    unfoldable pub sign_message : S → ℕ → Message B → Outcome (Unit {0}) × Message B
    sign_message k now m =
        let stamped = record m {
          from = some (did k);
          pubkey = some (public_key_hex k);
          ts = elim m.ts [ none ↦ some now | some t ↦ some t ];
        } in
        if is_some m.topic && is_some m.payload
        then (
          returned tt,
          record stamped { signature = some (sign k (canonical (signed_fields stamped))) },
        )
        else (raised key_error, stamped)

    verify_bytes : Option Bytes → Option Bytes → Bytes → Bool
    verify_bytes (some pub_raw) (some sig_raw) m =
        if ed.is_public pub_raw then ed.verify pub_raw sig_raw m else false
    verify_bytes (some _) none m = false
    verify_bytes none sig m = false

    -- `verify`; every exception gives `False`.
    unfoldable pub verify : Message B → Bool
    unfolding verify_bytes
    verify m =
        verify_bytes (fromhex (text_or m.pubkey)) (fromhex (text_or m.signature))
          (canonical (signed_fields m))
