-- ===== src/Relay/Client/Exchange.antt =====
-- Two clients of relay/client.py agree on a session through a relay and send over it.
use census_konantgit_sys_p2p.Phase0.Session.{IsCipher, decrypt}
use census_konantgit_sys_p2p.Phase0.Session.Envelope.{decrypt-encrypt}
use census_konantgit_sys_p2p.Prelude.{
  ◌∷◌, [], String, none, some, ◌++◌, ◌≡◌, refl, ap, ◌∙◌, ◌<◌, true, ◌+◌,
}
use census_konantgit_sys_p2p.Phase0.Handshake.{Agreement, IsAgreement, accepted, value}
use census_konantgit_sys_p2p.Relay.Client.{
  RelayClient, Waiting, e2e_req, e2e_ready, recv, establish, resume, handle, handle_e2e_req, send,
  derive_e2e, keep_session, salt_of, send_init, send_accept, send_data, set_result, decrypted,
  encrypted,
}
use census_konantgit_sys_p2p.Phase0.Session.{Cipher, new_session, SecureSession, IsCipher}
use census_konantgit_sys_p2p.Phase0.Hex.{Bytes, hex, fromhex-hex, IsBytes}
use census_konantgit_sys_p2p.Dict.{lookup, insert, erase, lookup-insert_self}
use census_konantgit_sys_p2p.Outcome.{returned}

module _ {X : Type 0} (c : Cipher) (dh : Agreement X) (agreement : IsAgreement dh) where
  abbrev pub e2e_key : X → X → Bytes → Bytes → Bytes
  e2e_key own foreign client_salt server_salt =
      dh.hkdf (client_salt ++ server_salt) (agreement.shared own foreign)

  abbrev pub e2e_session : Bytes → String → SecureSession
  e2e_session key peer = record {
    key = key;
    send_seq = 0;
    recv_seq = 0;
    peer_pubkey_hex = some peer;
  }

  derive_e2e-key :
      (own foreign : X) (client server : String) (cs ss : Bytes)
      → salt_of client ≡ some cs
      → salt_of server ≡ some ss
      → derive_e2e c dh own (hex (dh.x_public foreign)) client server
        ≡ accepted (e2e_key own foreign cs ss)
  unfolding derive_e2e value
  derive_e2e-key own foreign client server cs ss hc hs =
      rw (fromhex-hex (dh.x_public foreign) (agreement.x_public_IsBytes foreign))
        (rw (agreement.exchange_own own foreign) (rw (hc, hs) refl))

  keep_session-key :
      (own foreign : X) (cs ss : Bytes) (peer : String) (r : RelayClient X)
      → keep_session c dh peer (accepted (e2e_key own foreign cs ss)) r
        ≡ accepted (record r {
          e2e_sessions = insert peer (e2e_session (e2e_key own foreign cs ss) peer) r.e2e_sessions;
        })
  unfolding keep_session new_session
  keep_session-key own foreign cs ss peer r =
      rw (agreement.hkdf_length (cs ++ ss) (agreement.shared own foreign), keep_session) refl

  -- A client that is asked.
  pub handle_e2e_req-accepted :
      (own foreign : X) (sender : String) (cs ss : Bytes) (r : RelayClient X)
      → salt_of sender ≡ some cs
      → salt_of r.public_key_hex ≡ some ss
      → handle_e2e_req c dh own sender (hex (dh.x_public foreign)) r ≡ record r {
        e2e_sessions =
            insert sender (e2e_session (e2e_key own foreign cs ss) sender) r.e2e_sessions;
        outbox = r.outbox ++ send_accept sender (hex (dh.x_public own)) ∷ [];
      }
  unfolding handle_e2e_req
  handle_e2e_req-accepted own foreign sender cs ss r hc hs =
      rw (derive_e2e-key own foreign sender r.public_key_hex cs ss hc hs, handle_e2e_req)
        (rw (keep_session-key own foreign cs ss sender r, handle_e2e_req) refl)

  -- A client whose call of `e2e_establish` waits and gets the peer's key.
  pub resume-answered :
      (own foreign : X) (target : String) (cs ss : Bytes) (r : RelayClient X)
      → lookup target r.e2e_pending
        ≡ some (record { eph_priv = own; peer_eph_pub = some (hex (dh.x_public foreign)) })
      → salt_of r.public_key_hex ≡ some cs
      → salt_of target ≡ some ss
      → resume c dh target r
        ≡ accepted (record r {
          e2e_sessions =
              insert target (e2e_session (e2e_key own foreign cs ss) target) r.e2e_sessions;
          e2e_pending = erase target r.e2e_pending;
        })
  unfolding resume
  resume-answered own foreign target cs ss r there hc hs =
      rw (there, resume)
        (rw (derive_e2e-key own foreign r.public_key_hex target cs ss hc hs) (
          keep_session-key own foreign cs ss target
            (record r { e2e_pending = erase target r.e2e_pending })))

  -- A client that waits for a peer gets the peer's ephemeral key.
  pub handle-e2e_ready :
      (z own : X) (sender eph_pub : String) (r : RelayClient X)
      → lookup sender r.e2e_pending ≡ some (record { eph_priv = own; peer_eph_pub = none })
      → handle c dh z (e2e_ready sender eph_pub) r
        ≡ some (record r {
          e2e_pending =
              insert sender (record { eph_priv = own; peer_eph_pub = some eph_pub }) r.e2e_pending;
        })
  unfolding handle set_result
  handle-e2e_ready z own sender eph_pub r there = rw (there, handle) refl

  pub establish-new :
      (own : X) (target : String) (r : RelayClient X)
      → lookup target r.e2e_sessions ≡ none
      → establish c dh own target r ≡ (
        none,
        record r {
          e2e_pending =
              insert target (record { eph_priv = own; peer_eph_pub = none }) r.e2e_pending;
          outbox = r.outbox ++ send_init target (hex (dh.x_public own)) ∷ [];
        },
      )
  unfolding establish
  establish-new own target r absent = rw (absent, establish) refl

  -- A client `a` that has no session with `b` asks for one, the relay brings `b` the question and `a` the answer: both then have a session with the other one, under the same key, that begins to count at 0.
  establish-agree :
      (x y z : X) (a b : RelayClient X) (sa sb : Bytes)
      → lookup b.public_key_hex a.e2e_sessions ≡ none
      → salt_of a.public_key_hex ≡ some sa
      → salt_of b.public_key_hex ≡ some sb
      → let asking = (establish c dh x b.public_key_hex a).1 in
        (key : Bytes) × (asked : RelayClient X) × (answered : RelayClient X) × (done : RelayClient
          X)
        × (asking.outbox ≡ a.outbox ++ send_init b.public_key_hex (hex (dh.x_public x)) ∷ [])
        × (handle c dh y (e2e_req a.public_key_hex (hex (dh.x_public x))) b ≡ some asked)
        × (asked.outbox ≡ b.outbox ++ send_accept a.public_key_hex (hex (dh.x_public y)) ∷ [])
        × (handle c dh z (e2e_ready b.public_key_hex (hex (dh.x_public y))) asking ≡ some answered)
        × (resume c dh b.public_key_hex answered ≡ accepted done)
        × (lookup b.public_key_hex done.e2e_sessions ≡ some (e2e_session key b.public_key_hex))
        × (lookup a.public_key_hex asked.e2e_sessions ≡ some (e2e_session key a.public_key_hex))
  unfolding handle
  establish-agree x y z a b sa sb absent ha hb =
      let pa = a.public_key_hex in
      let pb = b.public_key_hex in
      let key = e2e_key x y sa sb in
      let waiting : Waiting X = record { eph_priv = x; peer_eph_pub = none } in
      let told : Waiting X = record { eph_priv = x; peer_eph_pub = some (hex (dh.x_public y)) } in
      let asking : RelayClient X = record a {
        e2e_pending = insert pb waiting a.e2e_pending;
        outbox = a.outbox ++ send_init pb (hex (dh.x_public x)) ∷ [];
      } in
      let answered : RelayClient X = record asking {
        e2e_pending = insert pb told asking.e2e_pending;
      } in
      let done : RelayClient X = record answered {
        e2e_sessions = insert pb (e2e_session key pb) answered.e2e_sessions;
        e2e_pending = erase pb answered.e2e_pending;
      } in
      let asked : RelayClient X = record b {
        e2e_sessions = insert pa (e2e_session (e2e_key y x sa sb) pa) b.e2e_sessions;
        outbox = b.outbox ++ send_accept pa (hex (dh.x_public y)) ∷ [];
      } in
      let same : e2e_key y x sa sb ≡ key = ap (dh.hkdf (sa ++ sb)) (agreement.shared_comm y x) in
      rw (establish-new x pb a absent) (
        key,
        asked,
        answered,
        done,
        refl,
        ap some (handle_e2e_req-accepted y x pa sa sb b ha hb),
        refl,
        handle-e2e_ready z x pb (hex (dh.x_public y)) asking
            (lookup-insert_self pb waiting a.e2e_pending),
        resume-answered x y pb sa sb answered (lookup-insert_self pb told asking.e2e_pending) ha hb,
        lookup-insert_self pb (e2e_session key pb) answered.e2e_sessions,
        lookup-insert_self pa (e2e_session (e2e_key y x sa sb) pa) b.e2e_sessions
            ∙ ap (λ k. some (e2e_session k pa)) same,
      )

  pub handle-recv :
      (z : X) (bytes plaintext : Bytes) (sender : String) (t : SecureSession) (b : RelayClient X)
      → IsBytes bytes
      → decrypt c bytes t ≡ (returned plaintext, record t { recv_seq = t.recv_seq + 1 })
      → lookup sender b.e2e_sessions ≡ some t
      → handle c dh z (recv sender (hex bytes)) b
        ≡ some (record b {
          e2e_sessions = insert sender (record t { recv_seq = t.recv_seq + 1 }) b.e2e_sessions;
          received = b.received ++ (sender, plaintext) ∷ [];
        })
  unfolding handle decrypted
  handle-recv z bytes plaintext sender t b is_bytes got there =
      rw (there, handle)
        (rw (fromhex-hex bytes is_bytes, handle) (ap (λ x. some (decrypted c dh sender b x)) got))

  -- A client sends bytes to a peer with whom it has a session, in which it has sent fewer than 2 ^ 32 messages, and the peer, whose session with it has the same key, gets them: the callbacks are called with the sender's public key and with these bytes. Both keep their sessions, with their counters advanced.
  pub recv-send :
      (laws : IsCipher c) (z : X) (plaintext : Bytes) (s t : SecureSession) (a b : RelayClient X)
      → s.send_seq < 4294967296
      → s.key ≡ t.key
      → lookup a.public_key_hex b.e2e_sessions ≡ some t
      → (payload : String) × (a' : RelayClient X) × (send c dh b.public_key_hex plaintext s a
          ≡ (returned true, a'))
        × (a'.outbox ≡ a.outbox ++ send_data b.public_key_hex payload ∷ [])
        × (lookup b.public_key_hex a'.e2e_sessions ≡ some (record s { send_seq = s.send_seq + 1 }))
        × (handle c dh z (recv a.public_key_hex payload) b
            ≡ some (record b {
              e2e_sessions =
                  insert a.public_key_hex (record t { recv_seq = t.recv_seq + 1 }) b.e2e_sessions;
              received = b.received ++ (a.public_key_hex, plaintext) ∷ [];
            }))
  unfolding send handle decrypted encrypted
  recv-send laws z plaintext s t a b room same there =
      let (bytes, sent, is_bytes, got) = decrypt-encrypt c laws plaintext s t room same in
      (
        hex bytes,
        record a {
          e2e_sessions =
              insert b.public_key_hex (record s { send_seq = s.send_seq + 1 }) a.e2e_sessions;
          outbox = a.outbox ++ send_data b.public_key_hex (hex bytes) ∷ [];
        },
        ap (encrypted c dh b.public_key_hex a) sent,
        refl,
        lookup-insert_self b.public_key_hex _ a.e2e_sessions,
        handle-recv z bytes plaintext a.public_key_hex t b is_bytes got there,
      )
