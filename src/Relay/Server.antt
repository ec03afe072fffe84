-- ===== src/Relay/Server.antt =====
-- `class RelayServer` of relay/server.py, from the end of the handshake on, and its count of connections.
-- A connection, that is its writer, its session and its `AgentSession`, is known by a number. What the
-- server writes to the connections is the list `outbox`; a write that raises is ignored by the code.
-- Times are natural numbers, of which `second` make a second.
pub mod Quiet
pub mod Limits
pub mod Delivery
pub mod Names
use Prim.Native.String.{[] as []ᵗ, ◌∷◌ as ◌∷ᵗ◌, count}
use mathlib.Core.Option.{map as map_option}
use census_konantgit_sys_p2p.Prelude.{
  ◌∷◌, [], List, zero, suc, ℕ, String, Option, none, some, ◌++◌, if◌then◌else◌, Bool, ◌-◌, leb,
  ◌==◌, not, ◌+◌, true, ltb, false, str_eq, ◌||◌, length, ◌&&◌,
}
use census_konantgit_sys_p2p.Dict.{lookup, Dict, values, insert, get_or, erase}

pub record AgentSession : Type 0 where
  pub pubkey : String
  pub connection : ℕ
  pub capabilities : List String
  pub connected : Bool

-- `s[:n]`
unfoldable pub text_take : ℕ → String → String
text_take zero s = []ᵗ
text_take (suc n) []ᵗ = []ᵗ
text_take (suc n) (c ∷ᵗ s) = c ∷ᵗ text_take n s

abbrev pub pubkey_prefix : AgentSession → String
pubkey_prefix a = text_take 16 a.pubkey

pub data ErrorCode : Type 0 where
  rate_limited target_not_found payload_too_large : ErrorCode

-- What the server writes.
pub data Output : Type 0 where
  registered : (agent_id : String) → Output
  peers : List (String × List String) → Output
  error : ErrorCode → Output
  e2e_req : (sender eph_pub : String) → Output
  e2e_ready : (sender eph_pub : String) → Output
  recv : (sender payload : String) → Output
  pong : Output

-- What an agent writes, decrypted; `none` for a missing field.
pub data Input : Type 0 where
  register : (capabilities : Option (List String)) → Input
  e2e_init : (target eph_pub : Option String) → Input
  e2e_accept : (target eph_pub : Option String) → Input
  send : (target payload : Option String) → Input
  ping : Input
  other_input : Input

pub record RelayServer : Type 0 where
  pub agents : Dict AgentSession
  pub second : ℕ
  pub max_msgs_per_sec : ℕ
  pub max_connections_per_ip : ℕ
  pub max_payload_bytes : ℕ
  pub rate_limits : Dict (List ℕ)
  pub ip_connections : Dict ℕ
  pub outbox : List (ℕ × Output)

unfoldable pub new_server : (second max_msgs max_connections max_payload : ℕ) → RelayServer
new_server second max_msgs max_connections max_payload = record {
  agents = [];
  second = second;
  max_msgs_per_sec = max_msgs;
  max_connections_per_ip = max_connections;
  max_payload_bytes = max_payload;
  rate_limits = [];
  ip_connections = [];
  outbox = [];
}

-- `_send_encrypted`
unfoldable pub send_encrypted : ℕ → Output → RelayServer → RelayServer
send_encrypted connection m s = record s { outbox = s.outbox ++ (connection, m) ∷ [] }

-- The loop over the old times in `_check_rate_limit`.
unfoldable pub drop_old : ℕ → ℕ → List ℕ → List ℕ
drop_old second now [] = []
drop_old second now (t ∷ ts) =
    let rest = drop_old second now ts in if ltb (t + second) now then rest else t ∷ ts

-- `_check_rate_limit`
unfoldable pub check_rate_limit : String → ℕ → RelayServer → Bool × RelayServer
unfolding drop_old get_or insert
check_rate_limit peer_id now s =
    let q = drop_old s.second now (get_or peer_id [] s.rate_limits) in
    if leb s.max_msgs_per_sec (length q)
    then (false, record s { rate_limits = insert peer_id q s.rate_limits })
    else (true, record s { rate_limits = insert peer_id (q ++ now ∷ []) s.rate_limits })

-- The other connected agents.
unfoldable pub others : String → Dict AgentSession → List (String × List String)
others pubkey [] = []
others pubkey ((k, other) ∷ rest) =
    let later = others pubkey rest in
    if not (str_eq k pubkey) && other.connected then (k, other.capabilities) ∷ later else later

-- `_send_peers_list`
unfoldable pub send_peers_list : AgentSession → RelayServer → RelayServer
unfolding send_encrypted others
send_peers_list agent s = send_encrypted agent.connection (peers (others agent.pubkey s.agents)) s

-- The loop of `_broadcast_peers_update`.
unfoldable pub send_to_each : List AgentSession → RelayServer → RelayServer
unfolding send_peers_list
send_to_each [] s = s
send_to_each (a ∷ rest) s = send_to_each rest (if a.connected then send_peers_list a s else s)

-- `_broadcast_peers_update`
unfoldable pub broadcast_peers_update : RelayServer → RelayServer
unfolding send_to_each
broadcast_peers_update s = send_to_each (values s.agents) s

-- `_handle_client` up to the handshake: whether the connection is accepted.
unfoldable pub accept : String → RelayServer → Bool × RelayServer
unfolding get_or insert
accept ip s =
    let n = get_or ip 0 s.ip_connections + 1 in
    if ltb s.max_connections_per_ip n
    then (false, record s { ip_connections = insert ip (n - 1) s.ip_connections })
    else (true, record s { ip_connections = insert ip n s.ip_connections })

-- `_wait_register` on the fields of the message that comes first, whose type is `register` if
-- `is_register`.
unfoldable pub wait_register :
    (connection : ℕ) (is_register : Bool) (pubkey : String) (capabilities : List String)
    → RelayServer
    → Option AgentSession × RelayServer
unfolding insert
wait_register connection is_register pubkey capabilities s =
    let agent : AgentSession = record {
      pubkey = pubkey;
      connection = connection;
      capabilities = capabilities;
      connected = true;
    } in
    if not is_register || str_eq pubkey ""
    then (none, s)
    else (some agent, record s { agents = insert pubkey agent s.agents })

-- What `_handle_client` does once an agent is registered.
unfoldable pub welcome : AgentSession → RelayServer → RelayServer
unfolding send_encrypted send_peers_list broadcast_peers_update
welcome agent s =
    broadcast_peers_update
      (send_peers_list agent (send_encrypted agent.connection (registered (pubkey_prefix agent)) s))

-- The `finally` of `_handle_client`.
unfoldable pub leave : Option AgentSession → String → RelayServer → RelayServer
unfolding erase broadcast_peers_update get_or insert
leave agent ip s =
    let gone : RelayServer = elim agent [
      | none ↦ s
      | some a ↦ broadcast_peers_update (record s { agents = erase a.pubkey s.agents })
    ] in
    record gone {
      ip_connections = insert ip (get_or ip 0 gone.ip_connections - 1) gone.ip_connections;
    }

-- A message to the connected agent `target`, or an error to the sender.
unfoldable pub to_target : AgentSession → String → Option Output → RelayServer → RelayServer
unfolding lookup send_encrypted
to_target agent target m s = elim (lookup target s.agents) [
  | none ↦ send_encrypted agent.connection (error target_not_found) s
  | some t ↦
      if t.connected
      then (elim m [ none ↦ s | some x ↦ send_encrypted t.connection x s ])
      else send_encrypted agent.connection (error target_not_found) s
]

-- The message of a `send`: without the target or the data it is a `KeyError`, which is ignored, and a
-- target that is not there gets nothing.
unfoldable pub handle_send :
    AgentSession → Option String → Option String → RelayServer → RelayServer
unfolding lookup send_encrypted
handle_send agent none payload s = s
handle_send agent (some target) none s = s
handle_send agent (some target) (some payload) s =
    if ltb s.max_payload_bytes (count payload)
    then send_encrypted agent.connection (error payload_too_large) s
    else elim (lookup target s.agents) [
      | none ↦ s
      | some t ↦
          if t.connected then send_encrypted t.connection (recv agent.pubkey payload) s else s
    ]

-- The capabilities of an agent that registers again: the session in the directory is changed, if it
-- is this connection's.
unfoldable pub set_capabilities : AgentSession → Dict AgentSession → Dict AgentSession
set_capabilities a [] = []
set_capabilities a ((k, other) ∷ rest) =
    let later = set_capabilities a rest in
    if other.connection == a.connection then (k, a) ∷ later else (k, other) ∷ later

-- A message that is not over the rate limit, with the agent as it is afterwards.
unfoldable pub dispatch : Input → AgentSession → RelayServer → AgentSession × RelayServer
unfolding set_capabilities send_encrypted to_target handle_send
dispatch (register none) agent s =
    (agent, send_encrypted agent.connection (registered (pubkey_prefix agent)) s)
dispatch (register (some capabilities)) agent s =
    let changed = record agent { capabilities = capabilities } in
    (
      changed,
      send_encrypted agent.connection (registered (pubkey_prefix agent))
          (record s { agents = set_capabilities changed s.agents }),
    )
dispatch (e2e_init none eph_pub) agent s = (agent, s)
dispatch (e2e_init (some target) eph_pub) agent s =
    (agent, to_target agent target (map_option (e2e_req agent.pubkey) eph_pub) s)
dispatch (e2e_accept none eph_pub) agent s = (agent, s)
dispatch (e2e_accept (some target) eph_pub) agent s =
    (agent, to_target agent target (map_option (e2e_ready agent.pubkey) eph_pub) s)
dispatch (send target payload) agent s = (agent, handle_send agent target payload s)
dispatch ping agent s = (agent, send_encrypted agent.connection pong s)
dispatch other_input agent s = (agent, s)

abbrev pub is_limited : Input → Bool
is_limited (register _) = true
is_limited (e2e_init _ _) = true
is_limited (e2e_accept _ _) = true
is_limited (send _ _) = true
is_limited ping = false
is_limited other_input = false

-- One round of `_handle_agent_messages`.
unfoldable pub handle : Input → ℕ → AgentSession → RelayServer → AgentSession × RelayServer
unfolding check_rate_limit send_encrypted dispatch
handle m now agent s =
    if is_limited m
    then (let (passed, checked) = check_rate_limit (pubkey_prefix agent) now s in
        if passed
        then dispatch m agent checked
        else (agent, send_encrypted agent.connection (error rate_limited) checked))
    else dispatch m agent s
