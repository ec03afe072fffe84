-- ===== src/Phase0/Transport.antt =====
-- `class P2PTransport` of phase0/transport.py: the bus of a process, which all its transports share, and
-- the table of TCP connections. A callback is a number, and what the bus gives to callbacks is the list
-- `delivered`; a callback that raises is reported by the code and passed over. A connection, its writer
-- and its reader, is a number. Payloads are bytes; the code puts them into JSON as base64.
pub mod Subscribers
pub mod Callbacks
pub mod Stopped
pub mod Connections
pub mod Sessions
use text.Mathlib.Text.{starts_with, find?}
use Prim.Native.String.{◌++◌ as text_append}
use census_konantgit_sys_p2p.Prelude.{
  ◌∷◌, [], List, zero, suc, ℕ, String, Option, none, some, ◌++◌, Bool, if◌then◌else◌, false, true,
  not, ◌||◌, str_eq, ◌==◌, ◌&&◌, ltb, length,
}
use census_konantgit_sys_p2p.Dict.{lookup, member, get_or, Dict, insert, erase}
use census_konantgit_sys_p2p.Phase0.Hex.{Bytes}

pub record Delivery : Type 0 where
  pub callback : ℕ
  pub payload : Bytes

-- `_bus`: the subscribers of a topic with their callbacks.
pub record Bus : Type 0 where
  pub topics : Dict (List (String × ℕ))
  pub delivered : List Delivery

-- What goes to a connection: the kind of message, and the prefix of the key of the session that it is
-- encrypted under, if it is.
pub data Frame : Type 0 where
  pub_frame : (topic : String) (payload : Bytes) (sender : String) → Frame
  sub_frame : (topic sender : String) → Frame
  unsub_frame : (topic sender : String) → Frame
  pong_frame : Frame

pub record Written : Type 0 where
  pub connection : ℕ
  pub session : Option String
  pub frame : Frame

-- The sessions are known by the prefixes of their peers' keys.
pub record Transport : Type 0 where
  pub node_id : String
  pub subscribed_topics : List String
  pub running : Bool
  pub use_tls : Bool
  pub relay : Bool
  pub tcp_connections : Dict ℕ
  pub tls_sessions : List String
  pub written : List Written

-- `data.endswith(b"\n")`
unfoldable pub ends_with_newline : Bytes → Bool
ends_with_newline [] = false
ends_with_newline (b ∷ []) = b == 10
ends_with_newline (b ∷ c ∷ bs) = ends_with_newline (c ∷ bs)

-- A byte before bytes that do not end with a newline.
unfoldable pub strip_one : ℕ → Bytes → Bytes
strip_one b [] = if b == 10 then [] else b ∷ []
strip_one b (c ∷ cs) = b ∷ c ∷ cs

-- `data.rstrip(b"\n")`
unfoldable pub strip_newlines : Bytes → Bytes
unfolding strip_one
strip_newlines [] = []
strip_newlines (b ∷ bs) = strip_one b (strip_newlines bs)

unfoldable pub with_newline : Bytes → Bytes
unfolding ends_with_newline
with_newline b = if ends_with_newline b then b else b ++ 10 ∷ []

-- The loop over the subscribers of a topic.
unfoldable pub call_each : List (String × ℕ) → Bytes → List Delivery → List Delivery
call_each [] payload delivered = delivered
call_each ((id, callback) ∷ rest) payload delivered =
    call_each rest payload (delivered ++ record { callback = callback; payload = payload } ∷ [])

-- `_deliver_local`, and the local part of `publish`.
unfoldable pub deliver_local : String → Bytes → Bus → Bus
unfolding get_or with_newline call_each
deliver_local topic payload bus = record bus {
  delivered = call_each (get_or topic [] bus.topics) (with_newline payload) bus.delivered;
}

-- `prefix in text`
unfoldable pub text_in : String → String → Bool
text_in part text = elim (find? text part) [ none ↦ false | some _ ↦ true ]

-- The loop of `_get_session_for_peer`.
unfoldable pub first_session : String → List String → Option String
unfolding text_in
first_session peer_id [] = none
first_session peer_id (p ∷ ps) =
    let later = first_session peer_id ps in
    if text_in p peer_id || starts_with peer_id "tls:" then some p else later

-- `_get_session_for_peer`
unfoldable pub get_session_for_peer : String → Transport → Option String
unfolding first_session
get_session_for_peer peer_id t = if t.use_tls then first_session peer_id t.tls_sessions else none

unfoldable pub write : ℕ → Option String → Frame → Transport → Transport
write connection session frame t = record t {
  written = t.written ++ record { connection = connection; session = session; frame = frame } ∷ [];
}

-- `exclude_peer and conn_peer_id == exclude_peer`
unfoldable pub is_excluded : Option String → String → Bool
is_excluded none peer_id = false
is_excluded (some e) peer_id = not (str_eq e "") && str_eq peer_id e

-- The loop over the connections in `_tcp_broadcast`, `_tcp_notify_sub` and `_tcp_notify_unsub`.
unfoldable pub write_each : Frame → Option String → Dict ℕ → Transport → Transport
unfolding is_excluded write get_session_for_peer
write_each frame exclude [] t = t
write_each frame exclude ((peer_id, connection) ∷ rest) t = write_each frame exclude rest (
    if is_excluded exclude peer_id
    then t
    else write connection (get_session_for_peer peer_id t) frame t)

-- `_tcp_broadcast`
unfoldable pub tcp_broadcast : String → Bytes → Option String → Transport → Transport
unfolding write_each
tcp_broadcast topic payload exclude t =
    write_each (pub_frame topic payload t.node_id) exclude t.tcp_connections t

-- `publish`
unfoldable pub publish : String → Bytes → Transport → Bus → Transport × Bus
unfolding deliver_local tcp_broadcast strip_newlines with_newline
publish topic payload t bus = (
  tcp_broadcast topic (strip_newlines (with_newline payload)) none t,
  deliver_local topic payload bus,
)

-- `subscribe`
unfoldable pub subscribe : String → ℕ → Transport → Bus → Transport × Bus
unfolding member get_or insert write_each
subscribe topic callback t bus = if member topic t.subscribed_topics then (t, bus) else (
  write_each (sub_frame topic t.node_id) none t.tcp_connections
      (record t { subscribed_topics = topic ∷ t.subscribed_topics }),
  record bus {
    topics = insert topic (get_or topic [] bus.topics ++ (t.node_id, callback) ∷ []) bus.topics;
  },
)

unfoldable pub without : String → List (String × ℕ) → List (String × ℕ)
without id [] = []
without id ((sid, callback) ∷ rest) =
    let kept = without id rest in if str_eq sid id then kept else (sid, callback) ∷ kept

unfoldable pub discard : String → List String → List String
discard x [] = []
discard x (y ∷ ys) = let kept = discard x ys in if str_eq y x then kept else y ∷ kept

-- `unsubscribe`
unfoldable pub unsubscribe : String → Transport → Bus → Transport × Bus
unfolding lookup insert discard without write_each
unsubscribe topic t bus = (
  write_each (unsub_frame topic t.node_id) none t.tcp_connections
      (record t { subscribed_topics = discard topic t.subscribed_topics }),
  elim (lookup topic bus.topics) [
    | none ↦ bus
    | some subs ↦ record bus { topics = insert topic (without t.node_id subs) bus.topics }
  ],
)

-- The loop over the topics at the end of `stop`.
unfoldable pub unsubscribe_each : List String → Transport → Bus → Transport × Bus
unfolding unsubscribe
unsubscribe_each [] t bus = (t, bus)
unsubscribe_each (topic ∷ rest) t bus =
    let (t', bus') = unsubscribe topic t bus in unsubscribe_each rest t' bus'

-- `stop`
unfoldable pub stop : Transport → Bus → Transport × Bus
unfolding unsubscribe_each
stop t bus =
    unsubscribe_each t.subscribed_topics
      (record t { running = false; tcp_connections = []; tls_sessions = [] }) bus

-- What a connection brings, decrypted: `from` may be missing, and a message without a field that the code
-- indexes is `other_incoming`. The data of a message is taken to be base64.
pub data Incoming : Type 0 where
  pub_message : (topic : String) (payload : Bytes) (sender : Option String) → Incoming
  sub_message : Incoming
  ping_message : Incoming
  other_incoming : Incoming

-- The name of a connection after a message of `sender`, and the table with it.
unfoldable pub rename : Option String → String → ℕ → Dict ℕ → String × Dict ℕ
unfolding insert erase
rename none peer_id connection d = (peer_id, d)
rename (some sender) peer_id connection d =
    if str_eq sender peer_id
    then (peer_id, d)
    else (sender, erase peer_id (insert sender connection d))

-- One round of the loop in `_handle_tcp_client`, for the connection that now has the name `peer_id` and
-- has the session `session`. The answer is the connection's name afterwards.
unfoldable pub handle_tcp :
    Incoming
    → (peer_id : String) (connection : ℕ) (session : Option String) → Transport
    → Bus
    → String × Transport × Bus
unfolding rename deliver_local tcp_broadcast write
handle_tcp (pub_message topic payload sender) peer_id connection session t bus =
    let (name, table) = rename sender peer_id connection t.tcp_connections in
    let renamed = record t { tcp_connections = table } in
    (
      name,
      if t.relay && ltb 1 (length table)
          then tcp_broadcast topic payload (some name) renamed
          else renamed,
      deliver_local topic payload bus,
    )
handle_tcp sub_message peer_id connection session t bus = (peer_id, t, bus)
handle_tcp ping_message peer_id connection session t bus =
    (peer_id, write connection session pong_frame t, bus)
handle_tcp other_incoming peer_id connection session t bus = (peer_id, t, bus)

-- `self._tcp_connections[peer_id] = writer`, after the handshake with the peer whose key has the prefix
-- `prefix`, if TLS is used.
unfoldable pub connected :
    (prefix : Option String) (peer_id : String) (connection : ℕ) → Transport → Transport
unfolding insert discard
connected none peer_id connection t = record t {
  tcp_connections = insert peer_id connection t.tcp_connections;
}
connected (some prefix) peer_id connection t = record t {
  tcp_connections = insert (text_append "tls:" prefix) connection t.tcp_connections;
  tls_sessions =
      if member prefix t.tls_sessions then t.tls_sessions else t.tls_sessions ++ prefix ∷ [];
}

-- The table without the entries of a connection.
unfoldable pub without_connection : ℕ → Dict ℕ → Dict ℕ
without_connection connection [] = []
without_connection connection ((name, c) ∷ rest) =
    let kept = without_connection connection rest in
    if c == connection then kept else (name, c) ∷ kept

-- The `finally` of `_handle_tcp_client`.
unfoldable pub disconnected : (prefix : Option String) (connection : ℕ) → Transport → Transport
unfolding without_connection discard
disconnected prefix connection t = record t {
  tcp_connections = without_connection connection t.tcp_connections;
  tls_sessions = elim prefix [ none ↦ t.tls_sessions | some p ↦ discard p t.tls_sessions ];
}
