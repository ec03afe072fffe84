-- ===== src/Phase0/Handshake.antt =====
-- `server_handshake` and `client_handshake` of phase0/handshake.py, each cut where it waits for a line.
-- Ed25519 is the interface of Phase0/Identity, X25519 and HKDF are the interface `Agreement`: `X` is the
-- type of ephemeral private keys. Key and nonce that a side generates are arguments. The messages are
-- dictionaries of texts.
pub mod Checks
pub mod Honest
pub mod Proof
pub mod Middle
use census_konantgit_sys_p2p.Prelude.{
  ◌∷◌, [], List, zero, suc, ℕ, String, Option, none, some, ◌++◌, Bool, str_eq, length, true, false,
  ◌||◌, ◌≡◌, ◌&&◌, not, ◌==◌,
}
use census_konantgit_sys_p2p.Phase0.Session.{new_session, SecureSession}
use census_konantgit_sys_p2p.Dict.{lookup, Dict, get_or}
use census_konantgit_sys_p2p.Phase0.Identity.{Signatures, public_key_hex, sign}
use census_konantgit_sys_p2p.Phase0.Hex.{IsBytes, Bytes, fromhex, hex}
use census_konantgit_sys_p2p.Outcome.{Exception, value_error, attribute_error, raised, returned}

-- `exchange` gives `none` where the library does not take the peer's public key (a `ValueError`).
pub record Agreement (X : Type 0) : Type 0 where
  pub x_public : X → Bytes
  pub exchange : X → Bytes → Option Bytes
  pub hkdf : (salt shared : Bytes) → Bytes

pub record IsAgreement {X : Type 0} (dh : Agreement X) : Type 0 where
  pub x_public_IsBytes : (a : X) → IsBytes (dh.x_public a)
  pub x_public_length : (a : X) → length (dh.x_public a) ≡ 32
  pub shared : X → X → Bytes
  pub exchange_own : (a b : X) → dh.exchange a (dh.x_public b) ≡ some (shared a b)
  pub shared_comm : (a b : X) → shared a b ≡ shared b a
  pub hkdf_length : (salt secret : Bytes) → length (dh.hkdf salt secret) ≡ 32

-- What a line is: the end of the stream, bytes that are no JSON, JSON that is no dictionary, or a
-- dictionary.
pub data Line : Type 0 where
  closed : Line
  undecodable : Line
  other_json : Line
  message : Dict String → Line

-- How a part of a handshake ends: it goes on, it returns `None`, or it raises.
pub data Checked {ℓ} (A : Type ℓ) : Type ℓ where
  accepted : A → Checked A
  refused : Checked A
  failed : Exception → Checked A

infixl 5 ◌>>=◌ ◌>>◌
abbrev pub ◌>>=◌ {ℓ κ} : {A : Type ℓ} {B : Type κ} → Checked A → (A → Checked B) → Checked B
accepted a >>= f = f a
refused >>= f = refused
failed e >>= f = failed e

abbrev pub ◌>>◌ {ℓ κ} : {A : Type ℓ} {B : Type κ} → Checked A → Checked B → Checked B
m >> k = m >>= λ _. k

-- `if not b: return None`
unfoldable pub check : Bool → Checked (Unit {0})
check true = accepted tt
check false = refused

-- A value, or `ValueError`.
unfoldable pub value {ℓ} : {A : Type ℓ} → Option A → Checked A
value none = failed value_error
value (some a) = accepted a

-- `json.loads(line.decode().strip())`, on whose result `.get` is called.
unfoldable pub read : Line → Checked (Dict String)
read closed = refused
read undecodable = refused
read other_json = failed attribute_error
read (message m) = accepted m

-- `msg.get("type") == t`
unfoldable pub has_type : String → Dict String → Bool
unfolding lookup
has_type t m = elim (lookup "type" m) [ none ↦ false | some x ↦ str_eq x t ]

-- `msg.get(k, "")`
unfoldable pub field : String → Dict String → String
unfolding get_or
field k m = get_or k "" m

unfoldable pub is_empty_text : String → Bool
is_empty_text s = str_eq s ""

unfoldable pub is_empty : Bytes → Bool
is_empty [] = true
is_empty (_ ∷ _) = false

-- What the server keeps while it waits for `auth`.
pub record Greeted (X : Type 0) : Type 0 where
  pub client_pubkey_hex : String
  pub client_nonce : Bytes
  pub client_eph_pub_hex : String
  pub server_eph_priv : X
  pub server_nonce : Bytes

-- What the client keeps while it waits for `challenge`.
pub record Greeting (X : Type 0) : Type 0 where
  pub client_eph_priv : X
  pub client_nonce : Bytes

-- `SecureSession(session_key)` with the peer's key set.
unfoldable pub session_with : Bytes → String → Checked SecureSession
unfolding new_session
session_with key peer = elim (new_session key) [
  | raised e ↦ failed e
  | returned s ↦ accepted (record s { peer_pubkey_hex = some peer })
]

-- `not expected_server_pubkey or server_pubkey_hex == expected_server_pubkey`
unfoldable pub is_expected : Option String → String → Bool
unfolding is_empty_text
is_expected none pubkey = true
is_expected (some expected) pubkey = is_empty_text expected || str_eq pubkey expected

module _ {S X : Type 0} (ed : Signatures S) (dh : Agreement X) where
  -- `_derive_session_key`
  unfoldable pub derive_session_key : X → String → Bytes → Bytes → Checked Bytes
  unfolding value fromhex
  derive_session_key my_eph_priv peer_eph_pub_hex client_nonce server_nonce = do
    peer_raw ← value (fromhex peer_eph_pub_hex)
    secret ← value (dh.exchange my_eph_priv peer_raw)
    accepted (dh.hkdf (client_nonce ++ server_nonce) secret)

  -- A public key in hexadecimal that the library takes.
  unfoldable is_public_hex : String → Bool
  unfolding fromhex
  is_public_hex s = elim (fromhex s) [ none ↦ false | some raw ↦ ed.is_public raw ]

  -- `Ed25519PublicKey.from_public_bytes(bytes.fromhex(key)).verify(sig, nonce)`, within `try`.
  unfoldable pub verify_hex : String → Bytes → Bytes → Bool
  unfolding fromhex
  verify_hex s sig nonce = elim (fromhex s) [
    | none ↦ false
    | some raw ↦ ed.is_public raw && ed.verify raw sig nonce
  ]

  -- `server_handshake` up to the challenge.
  unfoldable pub server_hello : S → X → Bytes → Line → Checked (Greeted X × Dict String)
  unfolding read check has_type field value fromhex is_empty_text is_public_hex public_key_hex sign
  server_hello identity server_eph_priv server_nonce line = do
    hello ← read line
    check (has_type "hello" hello)
    client_nonce ← value (fromhex (field "nonce" hello))
    check (
        length client_nonce == 32
        && not (is_empty_text (field "pubkey" hello))
        && not (is_empty_text (field "eph_pub" hello)))
    check (is_public_hex (field "pubkey" hello))
    accepted (
      record {
        client_pubkey_hex = field "pubkey" hello;
        client_nonce = client_nonce;
        client_eph_pub_hex = field "eph_pub" hello;
        server_eph_priv = server_eph_priv;
        server_nonce = server_nonce;
      },
      ("type", "challenge")
          ∷ ("server_pubkey", public_key_hex ed identity)
          ∷ ("nonce", hex server_nonce)
          ∷ ("nonce_sig", sign ed identity client_nonce)
          ∷ ("eph_pub", hex (dh.x_public server_eph_priv))
          ∷ [],
    )

  -- The rest of `server_handshake`.
  unfoldable pub server_auth : Greeted X → Line → Checked SecureSession
  unfolding read check has_type field value fromhex is_empty verify_hex derive_session_key
      session_with
  server_auth g line = do
    auth ← read line
    check (has_type "auth" auth)
    client_sig ← value (fromhex (field "nonce_sig" auth))
    check (not (is_empty client_sig))
    check (verify_hex g.client_pubkey_hex client_sig g.server_nonce)
    session_key ←
        derive_session_key g.server_eph_priv g.client_eph_pub_hex g.client_nonce g.server_nonce
    session_with session_key g.client_pubkey_hex

  -- `client_handshake` up to the hello.
  unfoldable pub client_hello : S → X → Bytes → Greeting X × Dict String
  unfolding public_key_hex
  client_hello identity client_eph_priv client_nonce = (
    record { client_eph_priv = client_eph_priv; client_nonce = client_nonce },
    ("type", "hello")
        ∷ ("pubkey", public_key_hex ed identity)
        ∷ ("nonce", hex client_nonce)
        ∷ ("eph_pub", hex (dh.x_public client_eph_priv))
        ∷ [],
  )

  -- The rest of `client_handshake`: once the server is accepted it sends `auth`, then it makes the
  -- session.
  unfoldable pub client_challenge :
      S → Option String → Greeting X → Line → Checked (Dict String × Checked SecureSession)
  unfolding read check has_type field value fromhex is_empty is_empty_text is_expected verify_hex
      derive_session_key session_with sign
  client_challenge identity expected g line = do
    challenge ← read line
    check (has_type "challenge" challenge)
    server_nonce ← value (fromhex (field "nonce" challenge))
    server_nonce_sig ← value (fromhex (field "nonce_sig" challenge))
    check (
        length server_nonce == 32
        && not (is_empty_text (field "server_pubkey" challenge))
        && not (is_empty server_nonce_sig)
        && not (is_empty_text (field "eph_pub" challenge)))
    check (is_expected expected (field "server_pubkey" challenge))
    check (verify_hex (field "server_pubkey" challenge) server_nonce_sig g.client_nonce)
    accepted (
      ("type", "auth") ∷ ("nonce_sig", sign ed identity server_nonce) ∷ [],
      derive_session_key g.client_eph_priv (field "eph_pub" challenge) g.client_nonce server_nonce
          >>= λ session_key. session_with session_key (field "server_pubkey" challenge),
    )
