-- ===== src/Relay/Passing.antt =====
-- A message from one client of relay/client.py through relay/server.py to another one.
use census_konantgit_sys_p2p.Prelude.{
  ◌∷◌, [], ℕ, String, some, ◌++◌, ◌<◌, ◌≤◌, ◌≡◌, ◌+◌, true, ap, sym, subst,
}
use Prim.Native.String.{count}
use census_konantgit_sys_p2p.Dict.{lookup, insert}
use census_konantgit_sys_p2p.Phase0.Hex.{Bytes, hex}
use census_konantgit_sys_p2p.Phase0.Handshake.{Agreement, IsAgreement}
use census_konantgit_sys_p2p.Phase0.Session.{Cipher, IsCipher, SecureSession, encrypt}
use census_konantgit_sys_p2p.Phase0.Session.Envelope.{decrypt-encrypt}
use census_konantgit_sys_p2p.Outcome.{Outcome, returned, raised}
use census_konantgit_sys_p2p.Relay.Client.{
  RelayClient, ToRelay, FromRelay, send_init, send_accept, send_data, send, handle, other_message,
  recv, e2e_req, e2e_ready, peers, encrypted,
}
use census_konantgit_sys_p2p.Relay.Client.Exchange.{handle-recv}
use census_konantgit_sys_p2p.Relay.Server.{
  RelayServer, AgentSession, Input, Output, check_rate_limit, pubkey_prefix, e2e_init, e2e_accept,
  registered, error, pong, handle as serve, send as send_input, recv as recv_output,
  peers as peers_output, e2e_req as req_output, e2e_ready as ready_output,
}
use census_konantgit_sys_p2p.Relay.Server.Delivery.{handle-send}

-- What the relay reads of a client's message, and a client of the relay's.
abbrev pub as_input : ToRelay → Input
as_input (send_init target eph_pub) = e2e_init (some target) (some eph_pub)
as_input (send_accept target eph_pub) = e2e_accept (some target) (some eph_pub)
as_input (send_data target payload) = send_input (some target) (some payload)

abbrev pub as_message : Output → FromRelay
as_message (registered agent_id) = other_message
as_message (peers_output ps) = peers ps
as_message (error code) = other_message
as_message (req_output sender eph_pub) = e2e_req sender eph_pub
as_message (ready_output sender eph_pub) = e2e_ready sender eph_pub
as_message (recv_output sender payload) = recv sender payload
as_message pong = other_message

-- The text that carries what was encrypted.
abbrev pub payload_of : Outcome Bytes → String
payload_of (raised e) = ""
payload_of (returned b) = hex b

module _ {X : Type 0} (c : Cipher) (dh : Agreement X) (agreement : IsAgreement dh) where
  -- Two clients with sessions of one key, both registered at a relay, the sender within the rate limit and with fewer than 2 ^ 32 messages sent in its session, and the text no longer than the relay allows: one `send` makes the sender write one message, by which the relay writes one message, to the connection of the other client, by which that client hands the sender's public key and the bytes that were sent to its callbacks.
  pub send-relayed :
      (laws : IsCipher c) (z : X) (plaintext : Bytes) (s t : SecureSession) (a b : RelayClient X)
      (now : ℕ) (sa sb : AgentSession) (r : RelayServer)
      → s.send_seq < 4294967296
      → s.key ≡ t.key
      → lookup a.public_key_hex b.e2e_sessions ≡ some t
      → sa.pubkey ≡ a.public_key_hex
      → (check_rate_limit (pubkey_prefix sa) now r).0 ≡ true
      → count (payload_of (encrypt c plaintext s).0) ≤ r.max_payload_bytes
      → lookup b.public_key_hex r.agents ≡ some sb
      → sb.connected ≡ true
      → (written : ToRelay) × (passed : Output) × ((send c dh b.public_key_hex plaintext s
            a).1.outbox
          ≡ a.outbox ++ written ∷ [])
        × ((serve (as_input written) now sa r).1.outbox ≡ r.outbox ++ (sb.connection, passed) ∷ [])
        × (handle c dh z (as_message passed) b
            ≡ some (record b {
              e2e_sessions =
                  insert a.public_key_hex (record t { recv_seq = t.recv_seq + 1 }) b.e2e_sessions;
              received = b.received ++ (a.public_key_hex, plaintext) ∷ [];
            }))
  unfolding send encrypted
  send-relayed laws z plaintext s t a b now sa sb r room same there own within small target
        connected =
      let (bytes, sent, is_bytes, got) = decrypt-encrypt c laws plaintext s t room same in
      let text : payload_of (encrypt c plaintext s).0 ≡ hex bytes = ap (λ x. payload_of x.0) sent in
      (
        send_data b.public_key_hex (hex bytes),
        recv_output sa.pubkey (hex bytes),
        ap (λ x. (encrypted c dh b.public_key_hex a x).1.outbox) sent,
        (handle-send b.public_key_hex (hex bytes) now sa sb r within
            (subst (λ p. count p ≤ r.max_payload_bytes) text small) target connected).0,
        subst
            (λ key.
              handle c dh z (recv key (hex bytes)) b
              ≡ some (record b {
                e2e_sessions =
                    insert a.public_key_hex (record t { recv_seq = t.recv_seq + 1 }) b.e2e_sessions;
                received = b.received ++ (a.public_key_hex, plaintext) ∷ [];
              }))
            (sym own)
            (handle-recv c dh agreement z bytes plaintext a.public_key_hex t b is_bytes got there),
      )
