-- ===== src/Phase0/Handshake/Honest.antt =====
-- A whole handshake of phase0/handshake.py between two parties that follow it. The network may put
-- another ephemeral key into the two messages that carry one.
use census_konantgit_sys_p2p.Prelude.{
  ◌∷◌, [], String, Option, some, ◌++◌, ◌≡◌, refl, false, true, length, ap, ◌∙◌,
}
use census_konantgit_sys_p2p.Phase0.Handshake.{
  Agreement, IsAgreement, message, accepted, check, value, Greeted, server_hello, server_auth,
  client_hello, client_challenge, is_expected, derive_session_key, session_with, is_public_hex,
  verify_hex, is_empty_text, read, has_type, field,
}
use census_konantgit_sys_p2p.Phase0.Handshake.Checks.{is_empty_text-hex, is_empty-length}
use census_konantgit_sys_p2p.Phase0.Identity.{Signatures, IsSigning, public_key_hex, sign}
use census_konantgit_sys_p2p.Phase0.Session.{new_session, SecureSession}
use census_konantgit_sys_p2p.Phase0.Hex.{Bytes, hex, fromhex-hex, IsBytes}
use census_konantgit_sys_p2p.Dict.{Dict, lookup, get_or, insert}

module _ {S X : Type 0} (ed : Signatures S) (dh : Agreement X) (signing : IsSigning ed)
    (agreement : IsAgreement dh) where
  abbrev pub hello_with : S → Bytes → X → Dict String
  hello_with a nonce e =
      ("type", "hello")
      ∷ ("pubkey", public_key_hex ed a)
      ∷ ("nonce", hex nonce)
      ∷ ("eph_pub", hex (dh.x_public e))
      ∷ []

  abbrev pub challenge_with : S → Bytes → Bytes → X → Dict String
  challenge_with b nonce client_nonce e =
      ("type", "challenge")
      ∷ ("server_pubkey", public_key_hex ed b)
      ∷ ("nonce", hex nonce)
      ∷ ("nonce_sig", sign ed b client_nonce)
      ∷ ("eph_pub", hex (dh.x_public e))
      ∷ []

  abbrev pub auth_of : S → Bytes → Dict String
  auth_of a nonce = ("type", "auth") ∷ ("nonce_sig", sign ed a nonce) ∷ []

  verify_hex-sign :
      (k : S) (m : Bytes) → verify_hex ed dh (public_key_hex ed k) (ed.sign k m) m ≡ true
  unfolding verify_hex public_key_hex
  verify_hex-sign k m =
      rw (fromhex-hex (ed.public_bytes k) (signing.public_IsBytes k), verify_hex)
        (rw (signing.public_taken k, signing.verify-sign k m) refl)

  is_public_hex-public : (k : S) → is_public_hex ed dh (public_key_hex ed k) ≡ true
  unfolding is_public_hex public_key_hex
  is_public_hex-public k =
      rw (fromhex-hex (ed.public_bytes k) (signing.public_IsBytes k), is_public_hex)
        (signing.public_taken k)

  public_key_hex-full : (k : S) → is_empty_text (public_key_hex ed k) ≡ false
  unfolding public_key_hex
  public_key_hex-full k = is_empty_text-hex (ed.public_bytes k) 31 (signing.public_length k)

  eph_full : (e : X) → is_empty_text (hex (dh.x_public e)) ≡ false
  eph_full e = is_empty_text-hex (dh.x_public e) 31 (agreement.x_public_length e)

  -- The key that comes of an own and a foreign ephemeral key.
  abbrev pub key_of : X → X → Bytes → Bytes → Bytes
  key_of own foreign client_nonce server_nonce =
      dh.hkdf (client_nonce ++ server_nonce) (agreement.shared own foreign)

  pub derive-key_of :
      (own foreign : X) (cn sn : Bytes)
      → derive_session_key ed dh own (hex (dh.x_public foreign)) cn sn
        ≡ accepted (key_of own foreign cn sn)
  unfolding derive_session_key value
  derive-key_of own foreign cn sn =
      rw (fromhex-hex (dh.x_public foreign) (agreement.x_public_IsBytes foreign))
        (rw (agreement.exchange_own own foreign) refl)

  abbrev pub session_of : Bytes → String → SecureSession
  session_of key peer = record {
    key = key;
    send_seq = 0;
    recv_seq = 0;
    peer_pubkey_hex = some peer;
  }

  session_with-key_of :
      (own foreign : X) (cn sn : Bytes) (peer : String)
      → session_with (key_of own foreign cn sn) peer
        ≡ accepted (session_of (key_of own foreign cn sn) peer)
  unfolding session_with new_session
  session_with-key_of own foreign cn sn peer =
      rw (agreement.hkdf_length (cn ++ sn) (agreement.shared own foreign), session_with) refl

  server_hello-hello_with :
      (a b : S) (y e : X) (cn sn : Bytes)
      → IsBytes cn
      → length cn ≡ 32
      → server_hello ed dh b y sn (message (hello_with a cn e))
        ≡ accepted (
          record {
            client_pubkey_hex = public_key_hex ed a;
            client_nonce = cn;
            client_eph_pub_hex = hex (dh.x_public e);
            server_eph_priv = y;
            server_nonce = sn;
          },
          challenge_with b sn cn y,
        )
  unfolding server_hello read check has_type field value lookup get_or
  server_hello-hello_with a b y e cn sn is_bytes size =
      rw (fromhex-hex cn is_bytes)
        (rw (size, public_key_hex-full a, eph_full e) (rw (is_public_hex-public a) refl))

  client_challenge-challenge_with :
      (a b : S) (x e : X) (cn sn : Bytes) (expected : Option String)
      → IsBytes sn
      → length sn ≡ 32
      → is_expected expected (public_key_hex ed b) ≡ true
      → client_challenge ed dh a expected
          (record { client_eph_priv = x; client_nonce = cn })
          (message (challenge_with b sn cn e))
        ≡ accepted (auth_of a sn, accepted (session_of (key_of x e cn sn) (public_key_hex ed b)))
  unfolding client_challenge read check has_type field value lookup get_or sign
  client_challenge-challenge_with a b x e cn sn expected is_bytes size known =
      let sig = is_empty-length (ed.sign b cn) 63 (signing.sign_length b cn) in
      rw (fromhex-hex sn is_bytes) (
        rw (fromhex-hex (ed.sign b cn) (signing.sign_IsBytes b cn)) (
          rw (size, public_key_hex-full b, eph_full e, sig)
            (rw known (
              rw (verify_hex-sign b cn)
                (rw (derive-key_of x e cn sn) (rw (session_with-key_of x e cn sn _) refl))))))

  server_auth-auth_of :
      (a : S) (y e : X) (cn sn : Bytes)
      → server_auth ed dh
          (record {
            client_pubkey_hex = public_key_hex ed a;
            client_nonce = cn;
            client_eph_pub_hex = hex (dh.x_public e);
            server_eph_priv = y;
            server_nonce = sn;
          })
          (message (auth_of a sn))
        ≡ accepted (session_of (key_of y e cn sn) (public_key_hex ed a))
  unfolding server_auth read check has_type field value lookup get_or sign
  server_auth-auth_of a y e cn sn =
      let sig = is_empty-length (ed.sign a sn) 63 (signing.sign_length a sn) in
      rw (fromhex-hex (ed.sign a sn) (signing.sign_IsBytes a sn)) (
        rw sig (
          rw (verify_hex-sign a sn)
            (rw (derive-key_of y e cn sn) (rw (session_with-key_of y e cn sn _) refl))))

  -- A handshake over a network that brings the server the ephemeral key of `to_server` and the client that of `to_client`.
  pub handshake-carried :
      (a b : S) (x y to_server to_client : X) (cn sn : Bytes) (expected : Option String)
      → IsBytes cn
      → length cn ≡ 32
      → IsBytes sn
      → length sn ≡ 32
      → is_expected expected (public_key_hex ed b) ≡ true
      → let (greeting, hello) = client_hello ed dh a x cn in
        let brought = insert "eph_pub" (hex (dh.x_public to_server)) hello in
        (g : Greeted X) × (challenge : Dict String) × (auth : Dict String) × (server_hello ed dh b y
            sn
            (message brought)
          ≡ accepted (g, challenge))
        × (client_challenge ed dh a expected greeting
              (message (insert "eph_pub" (hex (dh.x_public to_client)) challenge))
            ≡ accepted
                (auth, accepted (session_of (key_of x to_client cn sn) (public_key_hex ed b))))
        × (server_auth ed dh g (message auth)
            ≡ accepted (session_of (key_of y to_server cn sn) (public_key_hex ed a)))
  unfolding client_hello insert
  handshake-carried a b x y to_server to_client cn sn expected cn_bytes cn_size sn_bytes sn_size
        known =
      (
        _,
        _,
        _,
        server_hello-hello_with a b y to_server cn sn cn_bytes cn_size,
        client_challenge-challenge_with a b x to_client cn sn expected sn_bytes sn_size known,
        server_auth-auth_of a y to_server cn sn,
      )

  -- A client and a server that follow the protocol over a network that changes nothing, with nonces of 32 bytes, where the client expects no certain server or this one: both handshakes end with a session, the two sessions have the same key and begin to count at 0, and each has the other's public key as its peer.
  pub handshake-agree :
      (a b : S) (x y : X) (cn sn : Bytes) (expected : Option String)
      → IsBytes cn
      → length cn ≡ 32
      → IsBytes sn
      → length sn ≡ 32
      → is_expected expected (public_key_hex ed b) ≡ true
      → let (greeting, hello) = client_hello ed dh a x cn in
        (g : Greeted X) × (challenge : Dict String) × (auth : Dict String) × (key : Bytes)
        × (server_hello ed dh b y sn (message hello) ≡ accepted (g, challenge))
        × (client_challenge ed dh a expected greeting (message challenge)
            ≡ accepted (auth, accepted (session_of key (public_key_hex ed b))))
        × (server_auth ed dh g (message auth) ≡ accepted (session_of key (public_key_hex ed a)))
  unfolding client_hello
  handshake-agree a b x y cn sn expected cn_bytes cn_size sn_bytes sn_size known =
      let same : key_of y x cn sn ≡ key_of x y cn sn =
        ap (dh.hkdf (cn ++ sn)) (agreement.shared_comm y x) in
      (
        _,
        _,
        _,
        key_of x y cn sn,
        server_hello-hello_with a b y x cn sn cn_bytes cn_size,
        client_challenge-challenge_with a b x y cn sn expected sn_bytes sn_size known,
        server_auth-auth_of a y x cn sn
            ∙ ap (λ k. accepted (session_of k (public_key_hex ed a))) same,
      )
