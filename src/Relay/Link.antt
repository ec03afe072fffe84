-- ===== src/Relay/Link.antt =====
-- `class RelayLinkClient` of relay/redundancy.py. `M` is the type of forwarded messages. What a write does
-- is the argument `sent`: `false` where it raises.
pub mod Forward
use census_konantgit_sys_p2p.Prelude.{
  ◌∷◌, [], List, zero, suc, ℕ, String, Option, none, some, ◌++◌, if◌then◌else◌, false, Bool, true,
  ◌&&◌, not,
}

-- The messages between two relays; a field that is missing has its default.
pub data LinkMessage (M : Type 0) : Type 0 where
  relay_forward : (target : String) (payload : M) → LinkMessage M
  relay_handshake : (pubkey : String) → LinkMessage M
  relay_handshake_ack : (pubkey : String) → LinkMessage M
  other_message : LinkMessage M

-- What the loop reads: a message, the end of the stream or bytes that are no JSON, after which the loop
-- ends, or nothing for thirty seconds.
pub data Incoming (M : Type 0) : Type 0 where
  incoming : LinkMessage M → Incoming M
  broken : Incoming M
  timed_out : Incoming M

-- `written` is what has gone to the writer, `delivered` the calls of `_on_remote_message`.
pub record RelayLink (M : Type 0) : Type 0 where
  pub local_pubkey : String
  pub has_writer : Bool
  pub running : Bool
  pub written : List (LinkMessage M)
  pub delivered : List (String × M)

module _ {M : Type 0} where
  -- `RelayLinkClient(local_pubkey, on_remote_message)`
  unfoldable pub new_link : String → RelayLink M
  new_link pubkey = record {
    local_pubkey = pubkey;
    has_writer = false;
    running = false;
    written = [];
    delivered = [];
  }

  -- `_send`
  unfoldable pub send : LinkMessage M → RelayLink M → RelayLink M
  send m l = if l.has_writer then record l { written = l.written ++ m ∷ [] } else l

  -- `connect`, whose connection may be refused.
  unfoldable pub connect : Bool → RelayLink M → Bool × RelayLink M
  unfolding send
  connect false l = (false, l)
  connect true l = (
    true,
    record (send (relay_handshake l.local_pubkey) (record l { has_writer = true })) {
      running = true;
    },
  )

  -- `forward`
  unfoldable pub forward : (sent : Bool) → M → String → RelayLink M → Bool × RelayLink M
  unfolding send
  forward sent m target l =
      if l.has_writer && not sent then (false, l) else (true, send (relay_forward target m) l)

  -- One message in `_read_loop`.
  unfoldable pub handle : LinkMessage M → RelayLink M → RelayLink M
  unfolding send
  handle (relay_forward target payload) l = record l {
    delivered = l.delivered ++ (target, payload) ∷ [];
  }
  handle (relay_handshake pubkey) l = send (relay_handshake_ack l.local_pubkey) l
  handle (relay_handshake_ack pubkey) l = l
  handle other_message l = l

  -- `_read_loop`, by what it reads; the end of the list is the end of the stream.
  unfoldable pub read_loop : List (Incoming M) → RelayLink M → RelayLink M
  unfolding handle
  read_loop [] l = record l { running = false }
  read_loop (incoming m ∷ ms) l =
      if l.running then read_loop ms (handle m l) else record l { running = false }
  read_loop (broken ∷ ms) l = record l { running = false }
  read_loop (timed_out ∷ ms) l = if l.running then read_loop ms l else record l { running = false }

  -- `stop`, of the state.
  unfoldable pub stop : RelayLink M → RelayLink M
  stop l = record l { running = false }
