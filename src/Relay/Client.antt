-- ===== src/Relay/Client.antt =====
-- `class RelayClient` of relay/client.py, from the registration at the relay on. `X` is the type of
-- ephemeral private keys; a generated key is an argument. A call of `e2e_establish` that waits is kept in
-- `e2e_pending` with its ephemeral key and, once its future is set, with the peer's. The messages are the
-- decrypted ones; what the client sends is the list `outbox`, what it gives to its callbacks is
-- `received`.
pub mod Backoff
pub mod Exchange
pub mod Crossing
use Prim.Native.String.{[] as []ᵗ, ◌∷◌ as ◌∷ᵗ◌}
use Prim.Native.Nat.{◌^◌}
use census_konantgit_sys_p2p.Prelude.{
  ◌∷◌, [], List, zero, suc, ℕ, String, Option, none, some, ◌++◌, min, Bool, true, ◌*◌,
}
use census_konantgit_sys_p2p.Phase0.Handshake.{
  Agreement, Checked, accepted, refused, failed, ◌>>=◌, value,
}
use census_konantgit_sys_p2p.Phase0.Session.{Cipher, new_session, encrypt, SecureSession, decrypt}
use census_konantgit_sys_p2p.Dict.{Dict, lookup, insert, erase}
use census_konantgit_sys_p2p.Phase0.Hex.{fromhex, Bytes, hex}
use census_konantgit_sys_p2p.Outcome.{raised, Outcome, returned}

pub record Waiting (X : Type 0) : Type 0 where
  pub eph_priv : X
  pub peer_eph_pub : Option String

-- What the client sends to the relay.
pub data ToRelay : Type 0 where
  send_init : (target eph_pub : String) → ToRelay
  send_accept : (target eph_pub : String) → ToRelay
  send_data : (target payload : String) → ToRelay

-- What the relay sends. A message without a field that the code indexes is `lacking`.
pub data FromRelay : Type 0 where
  peers : List (String × List String) → FromRelay
  e2e_req : (sender eph_pub : String) → FromRelay
  e2e_ready : (sender eph_pub : String) → FromRelay
  recv : (sender payload : String) → FromRelay
  lacking : FromRelay
  other_message : FromRelay

pub record RelayClient (X : Type 0) : Type 0 where
  pub public_key_hex : String
  pub known_peers : List (String × List String)
  pub e2e_sessions : Dict SecureSession
  pub e2e_pending : Dict (Waiting X)
  pub received : List (String × Bytes)
  pub outbox : List ToRelay

unfoldable pub new_client : {X : Type 0} → String → RelayClient X
new_client public_key_hex = record {
  public_key_hex = public_key_hex;
  known_peers = [];
  e2e_sessions = [];
  e2e_pending = [];
  received = [];
  outbox = [];
}

-- `s[:n].ljust(width, "0")` by the characters that are left of both.
unfoldable pub padded : (n width : ℕ) → String → String
padded zero zero s = []ᵗ
padded zero (suc w) s = "0" ∷ᵗ padded zero w s
padded (suc n) zero []ᵗ = []ᵗ
padded (suc n) zero (c ∷ᵗ s) = c ∷ᵗ padded n zero s
padded (suc n) (suc w) []ᵗ = "0" ∷ᵗ padded (suc n) w []ᵗ
padded (suc n) (suc w) (c ∷ᵗ s) = c ∷ᵗ padded n w s

-- `bytes.fromhex(pubkey[:32].ljust(64, "0"))`
unfoldable pub salt_of : String → Option Bytes
unfolding fromhex padded
salt_of pubkey = fromhex (padded 32 64 pubkey)

-- `_compute_backoff` in milliseconds, for a jitter of `jitter` thousandths.
unfoldable pub compute_backoff : (attempt jitter : ℕ) → ℕ
compute_backoff attempt jitter = min 30000 (2 ^ min attempt 5 * jitter)

module _ {X : Type 0} (c : Cipher) (dh : Agreement X) where
  -- The session key of both sides of an exchange: the one that asks is the client.
  unfoldable pub derive_e2e : X → (peer_eph_pub client server : String) → Checked Bytes
  unfolding value fromhex salt_of
  derive_e2e eph_priv peer_eph_pub client server = do
    peer_raw ← value (fromhex peer_eph_pub)
    secret ← value (dh.exchange eph_priv peer_raw)
    client_nonce ← value (salt_of client)
    server_nonce ← value (salt_of server)
    accepted (dh.hkdf (client_nonce ++ server_nonce) secret)

  -- `self._e2e_sessions[peer] = session` for the key that was derived, if any.
  unfoldable pub keep_session : String → Checked Bytes → RelayClient X → Checked (RelayClient X)
  unfolding new_session insert
  keep_session peer refused r = refused
  keep_session peer (failed e) r = failed e
  keep_session peer (accepted key) r = elim (new_session key) [
    | raised e ↦ failed e
    | returned s ↦ accepted (record r {
      e2e_sessions = insert peer (record s { peer_pubkey_hex = some peer }) r.e2e_sessions;
    })
  ]

  -- `e2e_establish` up to the wait for an answer: whether there is a session already.
  unfoldable pub establish :
      (eph_priv : X) → String → RelayClient X → Option SecureSession × RelayClient X
  unfolding lookup insert hex
  establish eph_priv target r = elim (lookup target r.e2e_sessions) [
    | some s ↦ (some s, r)
    | none ↦ (
      none,
      record r {
        e2e_pending =
            insert target (record { eph_priv = eph_priv; peer_eph_pub = none }) r.e2e_pending;
        outbox = r.outbox ++ send_init target (hex (dh.x_public eph_priv)) ∷ [];
      },
    )
  ]

  -- The rest of `e2e_establish`, once its future is set: the state with the session, or what the
  -- derivation raises. It waits on while the future is not set.
  unfoldable pub resume : String → RelayClient X → Checked (RelayClient X)
  unfolding lookup erase derive_e2e keep_session
  resume target r = elim (lookup target r.e2e_pending) [
    | none ↦ refused
    | some w ↦ elim w.peer_eph_pub [
      | none ↦ refused
      | some peer_eph_pub ↦
          keep_session target (derive_e2e w.eph_priv peer_eph_pub r.public_key_hex target)
            (record r { e2e_pending = erase target r.e2e_pending })
    ]
  ]

  -- `e2e_establish` when its fifteen seconds are over.
  unfoldable pub give_up : String → RelayClient X → RelayClient X
  unfolding erase
  give_up target r = record r { e2e_pending = erase target r.e2e_pending }

  -- `_handle_e2e_req`; a `ValueError` leaves the state as it is.
  unfoldable pub handle_e2e_req :
      (eph_priv : X) → (sender eph_pub : String) → RelayClient X → RelayClient X
  unfolding derive_e2e keep_session hex
  handle_e2e_req eph_priv sender eph_pub r =
      elim (keep_session sender (derive_e2e eph_priv eph_pub sender r.public_key_hex) r) [
        | refused ↦ r
        | failed e ↦ r
        | accepted r' ↦ record r' {
          outbox = r'.outbox ++ send_accept sender (hex (dh.x_public eph_priv)) ∷ [];
        }
      ]

  -- `future.set_result` on a future that is not done.
  unfoldable pub set_result : String → Waiting X → Waiting X
  set_result eph_pub w = elim w.peer_eph_pub [
    | some _ ↦ w
    | none ↦ record w { peer_eph_pub = some eph_pub }
  ]

  unfoldable pub decrypted : String → RelayClient X → Outcome Bytes × SecureSession → RelayClient X
  unfolding insert
  decrypted sender r (returned b, s) = record r {
    e2e_sessions = insert sender s r.e2e_sessions;
    received = r.received ++ (sender, b) ∷ [];
  }
  decrypted sender r (raised e, s) = record r { e2e_sessions = insert sender s r.e2e_sessions }

  -- One message in `_read_loop`, with the ephemeral key that an `e2e_req` generates; `none` where a
  -- `KeyError` ends the loop.
  unfoldable pub handle : X → FromRelay → RelayClient X → Option (RelayClient X)
  unfolding handle_e2e_req lookup insert set_result fromhex decrypt decrypted
  handle eph_priv (peers ps) r = some (record r { known_peers = ps })
  handle eph_priv (e2e_req sender eph_pub) r = some (handle_e2e_req eph_priv sender eph_pub r)
  handle eph_priv (e2e_ready sender eph_pub) r = elim (lookup sender r.e2e_pending) [
    | none ↦ some r
    | some w ↦ some (record r { e2e_pending = insert sender (set_result eph_pub w) r.e2e_pending })
  ]
  handle eph_priv (recv sender payload) r = elim (lookup sender r.e2e_sessions) [
    | none ↦ some r
    | some s ↦ elim (fromhex payload) [
      | none ↦ some r
      | some ct ↦ some (decrypted sender r (decrypt c ct s))
    ]
  ]
  handle eph_priv lacking r = none
  handle eph_priv other_message r = some r

  unfoldable pub encrypted :
      String → RelayClient X → Outcome Bytes × SecureSession → Outcome Bool × RelayClient X
  unfolding insert hex
  encrypted target r (raised e, s) = (raised e, r)
  encrypted target r (returned b, s) = (
    returned true,
    record r {
      e2e_sessions = insert target s r.e2e_sessions;
      outbox = r.outbox ++ send_data target (hex b) ∷ [];
    },
  )

  -- `send` to a peer with whom there is a session.
  unfoldable pub send :
      String → Bytes → SecureSession → RelayClient X → Outcome Bool × RelayClient X
  unfolding encrypt encrypted
  send target plaintext s r = encrypted target r (encrypt c plaintext s)
