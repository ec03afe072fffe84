-- ===== src/Tests/Sessions.antt =====
-- Instances for handshakes and sessions, phase0/handshake.py and relay/client.py, with toy keys.
use census_konantgit_sys_p2p.Prelude.{
  ◌∷◌, [], ℕ, ◌≡◌, ◌+◌, Bool, true, false, Option, some, String, refl, arith, ◌≤◌, ◌++◌,
}
use census_konantgit_sys_p2p.Phase0.Hex.{Bytes, IsBytes, hex, fromhex}
use census_konantgit_sys_p2p.Phase0.Identity.{public_key_hex}
use census_konantgit_sys_p2p.Phase0.Handshake.{
  client_hello, server_hello, client_challenge, is_expected, Greeted, Line, server_auth, message,
  derive_session_key, accepted,
}
use census_konantgit_sys_p2p.Prelude.{take, ◌↔◌}
use census_konantgit_sys_p2p.Dict.{Dict, insert, lookup, get_or}
use census_konantgit_sys_p2p.Phase0.Handshake.Honest.{session_of, handshake-agree}
use census_konantgit_sys_p2p.Phase0.Handshake.Middle.{handshake-middle}
use census_konantgit_sys_p2p.Phase0.Handshake.Proof.{server_auth-verified}
use census_konantgit_sys_p2p.Phase0.Session.Envelope.{unpack-pack_encrypted}
use census_konantgit_sys_p2p.Phase0.Session.Nonces.{encrypt_all-nonces}
use census_konantgit_sys_p2p.Relay.Client.{send_data, send, recv, handle, RelayClient}
use census_konantgit_sys_p2p.Relay.Client.Exchange.{recv-send}
use census_konantgit_sys_p2p.Outcome.{returned}
use census_konantgit_sys_p2p.Phase0.Session.{
  big_endian, encrypt, pack_encrypted, unpack_encrypted, SecureSession,
}
use census_konantgit_sys_p2p.Tests.Keys.{
  repeated, repeated-IsBytes, first, ed, signing, dh, agreement, cipher, ciphering, byte,
}
use Prim.Native.String.{count}
use census_konantgit_sys_p2p.Relay.Client.{ToRelay}
use census_konantgit_sys_p2p.Relay.Server.{
  RelayServer, AgentSession, Output, new_server, check_rate_limit, pubkey_prefix, handle as serve,
}
use census_konantgit_sys_p2p.Relay.Passing.{as_input, as_message, payload_of, send-relayed}

abbrev client_nonce : Bytes
client_nonce = repeated 32 7

abbrev server_nonce : Bytes
server_nonce = repeated 32 9

abbrev expecting : Option String
expecting = some (public_key_hex ed false)

abbrev greeted : Greeted Bool
greeted = record {
  client_pubkey_hex = public_key_hex ed true;
  client_nonce = client_nonce;
  client_eph_pub_hex = hex (repeated 32 1);
  server_eph_priv = false;
  server_nonce = server_nonce;
}

abbrev auth_line : Line
auth_line = message (("type", "auth") ∷ ("nonce_sig", hex (repeated 64 1)) ∷ [])

abbrev agreed : SecureSession
agreed = record {
  key = repeated 32 3;
  send_seq = 0;
  recv_seq = 0;
  peer_pubkey_hex = some (public_key_hex ed true);
}

accepted_auth : server_auth ed dh greeted auth_line ≡ accepted agreed
unfolding server_auth public_key_hex hex
accepted_auth = refl

expecting_known : is_expected expecting (public_key_hex ed false) ≡ true
unfolding is_expected public_key_hex hex
expecting_known = refl

client_nonce_IsBytes : IsBytes client_nonce
client_nonce_IsBytes = repeated-IsBytes 32 7 (omega arith)

server_nonce_IsBytes : IsBytes server_nonce
server_nonce_IsBytes = repeated-IsBytes 32 9 (omega arith)

handshake-agree_example :
    let (greeting, hello) = client_hello ed dh true true client_nonce in
    (g : Greeted Bool) × (challenge : Dict String) × (auth : Dict String) × (key : Bytes)
    × (server_hello ed dh false false server_nonce (message hello) ≡ accepted (g, challenge))
    × (client_challenge ed dh true expecting greeting (message challenge)
        ≡ accepted
            (auth, accepted (session_of ed dh signing agreement key (public_key_hex ed false))))
    × (server_auth ed dh g (message auth)
        ≡ accepted (session_of ed dh signing agreement key (public_key_hex ed true)))
handshake-agree_example =
    handshake-agree ed dh signing agreement true false true false client_nonce server_nonce
      expecting client_nonce_IsBytes refl server_nonce_IsBytes refl expecting_known

server_auth-verified_example :
    (some (public_key_hex ed true) ≡ some (public_key_hex ed true))
    × ((auth : Dict String) × (text : String) × (raw : Bytes) × (sig : Bytes) × (auth_line
          ≡ message auth)
        × (lookup "nonce_sig" auth ≡ some text)
        × (fromhex text ≡ some sig)
        × (fromhex (public_key_hex ed true) ≡ some raw)
        × (ed.verify raw sig server_nonce ≡ true))
server_auth-verified_example = server_auth-verified ed dh greeted auth_line agreed accepted_auth

handshake-middle_example :
    let (greeting, hello) = client_hello ed dh true true client_nonce in
    let own = hex (dh.x_public false) in
    (g : Greeted Bool) × (challenge : Dict String) × (auth : Dict String) × (client_key : Bytes)
    × (server_key : Bytes) × (server_hello ed dh false false server_nonce
          (message (insert "eph_pub" own hello))
        ≡ accepted (g, challenge))
    × (client_challenge ed dh true expecting greeting (message (insert "eph_pub" own challenge))
        ≡ accepted (
          auth,
          accepted (session_of ed dh signing agreement client_key (public_key_hex ed false)),
        ))
    × (server_auth ed dh g (message auth)
        ≡ accepted (session_of ed dh signing agreement server_key (public_key_hex ed true)))
    × (derive_session_key ed dh false (hex (dh.x_public true)) client_nonce server_nonce
        ≡ accepted client_key)
    × (derive_session_key ed dh false (hex (dh.x_public false)) client_nonce server_nonce
        ≡ accepted server_key)
handshake-middle_example =
    handshake-middle ed dh signing agreement true false true false false client_nonce server_nonce
      expecting client_nonce_IsBytes refl server_nonce_IsBytes refl expecting_known

abbrev used : SecureSession
used = record agreed { send_seq = 300; recv_seq = 2 }

-- A message is a byte that its text repeats once.
abbrev dumped : ℕ → Bytes
dumped j = j ∷ []

abbrev loaded : Bytes → Option ℕ
loaded bs = some (first bs)

unpack-pack_encrypted_example :
    (d : String) × (pack_encrypted cipher dumped loaded 65 used
      ≡ (returned d, record used { send_seq = 300 + 1 }))
    × (unpack_encrypted cipher dumped loaded d agreed
        ≡ (returned 65, record agreed { recv_seq = 0 + 1 }))
unpack-pack_encrypted_example =
    unpack-pack_encrypted cipher dumped loaded ciphering (λ j. refl) 65 used agreed (omega arith)
      refl

abbrev thirteenth : Bytes
thirteenth = 0 ∷ 0 ∷ 1 ∷ 44 ∷ 0 ∷ 0 ∷ 0 ∷ 0 ∷ 0 ∷ 0 ∷ 0 ∷ 0 ∷ 1 ∷ 0 ∷ []

abbrev zeroth : Bytes
zeroth = 0 ∷ 0 ∷ 0 ∷ 0 ∷ 0 ∷ 0 ∷ 0 ∷ 0 ∷ 0 ∷ 0 ∷ 0 ∷ 0 ∷ 1 ∷ 1 ∷ 0 ∷ []

encrypt_all-nonces_example : (take 12 thirteenth ≡ take 12 zeroth) ↔ (298 + 2 ≡ 0 + 0)
unfolding encrypt big_endian
encrypt_all-nonces_example =
    encrypt_all-nonces cipher ([] ∷ [] ∷ (1 ∷ []) ∷ []) ((2 ∷ []) ∷ []) 2 0 thirteenth zeroth
      (record used { send_seq = 298 }) agreed refl refl

abbrev other : Bool → Bool
other true = false
other false = true

abbrev client_of : Bool → RelayClient Bool
client_of k = record {
  public_key_hex = public_key_hex ed k;
  known_peers = [];
  e2e_sessions = (public_key_hex ed (other k), agreed) ∷ [];
  e2e_pending = [];
  received = [];
  outbox = [];
}

knows_sender : lookup (public_key_hex ed true) (client_of false).e2e_sessions ≡ some agreed
unfolding lookup public_key_hex hex
knows_sender = refl

recv-send_example :
    (payload : String) × (a' : RelayClient Bool) × (send cipher dh
        (public_key_hex ed false)
        (104 ∷ 105 ∷ [])
        used
        (client_of true)
      ≡ (returned true, a'))
    × (a'.outbox ≡ send_data (public_key_hex ed false) payload ∷ [])
    × (lookup (public_key_hex ed false) a'.e2e_sessions ≡ some (record used { send_seq = 300 + 1 }))
    × (handle cipher dh true (recv (public_key_hex ed true) payload) (client_of false)
        ≡ some (record (client_of false) {
          e2e_sessions =
              insert
                (public_key_hex ed true)
                (record agreed { recv_seq = 0 + 1 })
                (client_of false).e2e_sessions;
          received = (public_key_hex ed true, 104 ∷ 105 ∷ []) ∷ [];
        }))
recv-send_example =
    recv-send cipher dh agreement ciphering true (104 ∷ 105 ∷ []) used agreed (client_of true)
      (client_of false) (omega arith) refl knows_sender

abbrev agent_of : Bool → AgentSession
agent_of k = record {
  pubkey = public_key_hex ed k;
  connection = byte k;
  capabilities = [];
  connected = true;
}

abbrev serving : RelayServer
serving = record (new_server 1000 10 5 1048576) {
  agents = (public_key_hex ed true, agent_of true) ∷ (public_key_hex ed false, agent_of false) ∷ [];
}

within_rate : (check_rate_limit (pubkey_prefix (agent_of true)) 9 serving).0 ≡ true
unfolding check_rate_limit new_server get_or
within_rate = refl

small_enough : count (payload_of (encrypt cipher (1 ∷ 2 ∷ []) used).0) ≤ serving.max_payload_bytes
unfolding encrypt big_endian hex new_server
small_enough = omega arith

knows_target : lookup (public_key_hex ed false) serving.agents ≡ some (agent_of false)
unfolding lookup public_key_hex hex
knows_target = refl

send-relayed_example :
    (written : ToRelay) × (passed : Output) × ((send cipher dh
        (public_key_hex ed false)
        (1 ∷ 2 ∷ [])
        used
        (client_of true)).1.outbox
      ≡ written ∷ [])
    × ((serve (as_input written) 9 (agent_of true) serving).1.outbox
        ≡ serving.outbox ++ (2, passed) ∷ [])
    × (handle cipher dh true (as_message passed) (client_of false)
        ≡ some (record (client_of false) {
          e2e_sessions =
              insert
                (public_key_hex ed true)
                (record agreed { recv_seq = 0 + 1 })
                (client_of false).e2e_sessions;
          received = (public_key_hex ed true, 1 ∷ 2 ∷ []) ∷ [];
        }))
send-relayed_example =
    send-relayed cipher dh agreement ciphering true (1 ∷ 2 ∷ []) used agreed (client_of true)
      (client_of false) 9 (agent_of true) (agent_of false) serving (omega arith) refl knows_sender
      refl within_rate small_enough knows_target refl
