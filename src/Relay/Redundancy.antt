-- ===== src/Relay/Redundancy.antt =====
-- `class MultiRelayClient` of relay/redundancy.py. `C` is the type of inner clients. What the factory
-- gives at an attempt is an argument: a client, or `none` where it raises or gives a false value. A
-- registered `on_connect` callback is the answer of a call of it: `false` where it raises, which `connect`
-- takes for a failed attempt.
pub mod Connect
use census_konantgit_sys_p2p.Prelude.{
  ◌∷◌, [], List, zero, suc, ℕ, String, Option, none, some, ◌++◌, true, Bool, false, length, ◌+◌,
  ◌%◌, ◌*◌, get_elem?, if◌then◌else◌, ◌==◌,
}
use census_konantgit_sys_p2p.Outcome.{Outcome, returned, raised, index_error, zero_division_error}

-- A host and its port.
abbrev pub Relay : Type 0
Relay = String × ℕ

pub record MultiRelay (C : Type 0) : Type 0 where
  pub relay_list : List Relay
  pub current_idx : ℕ
  pub current_relay : Option Relay
  pub inner_client : Option C
  pub running : Bool
  pub on_connect : Option (Relay → Bool)

-- `MultiRelayClient(relay_list)`
unfoldable pub new_client : {C : Type 0} → List Relay → MultiRelay C
new_client relays = record {
  relay_list = relays;
  current_idx = 0;
  current_relay = none;
  inner_client = none;
  running = false;
  on_connect = none;
}

-- `if self._on_connect: self._on_connect(host, port)` within `try`.
unfoldable pub notify : Option (Relay → Bool) → Relay → Bool
notify none r = true
notify (some callback) r = callback r

module _ {C : Type 0} where
  abbrev pub connected : C → ℕ → Relay → MultiRelay C → MultiRelay C
  connected client idx r m = record m {
    inner_client = some client;
    current_idx = idx;
    current_relay = some r;
    running = true;
  }

  -- The loop of `connect`: `left` attempts from the number `attempt` on. The factory knows the number
  -- of the attempt, since a relay may be there at one and not at another.
  unfoldable pub attempts :
      (ℕ → Relay → Option C) → (left attempt : ℕ) → MultiRelay C → Outcome Bool × MultiRelay C
  unfolding notify
  attempts factory zero attempt m = (returned false, m)
  attempts factory (suc left) attempt m =
      let idx = (m.current_idx + attempt) % length m.relay_list in
      elim (get_elem? m.relay_list idx) [
        | none ↦ (raised index_error, m)
        | some r ↦ elim (factory attempt r) [
          | none ↦ attempts factory left (attempt + 1) m
          | some client ↦ elim (notify m.on_connect r) [
            | true ↦ (returned true, connected client idx r m)
            | false ↦ attempts factory left (attempt + 1) (connected client idx r m)
          ]
        ]
      ]

  -- `connect`
  unfoldable pub connect : (ℕ → Relay → Option C) → MultiRelay C → Outcome Bool × MultiRelay C
  unfolding attempts
  connect factory m = attempts factory (length m.relay_list * 2) 0 m

  -- `reconnect`: the factory it hands over gives the inner client, which has just been cleared.
  unfoldable pub reconnect : MultiRelay C → Outcome Bool × MultiRelay C
  unfolding connect
  reconnect m =
      let moved = record m {
        current_idx = (m.current_idx + 1) % length m.relay_list;
        inner_client = none;
      } in
      if length m.relay_list == 0
      then (raised zero_division_error, m)
      else connect (λ attempt r. none) moved

  -- `stop`, of the state.
  unfoldable pub stop : MultiRelay C → MultiRelay C
  stop m = record m { running = false }

  -- `get_peers`, for clients that have `peers`.
  unfoldable pub get_peers : {P : Type 0} → (C → List P) → MultiRelay C → List P
  get_peers peers m = elim m.inner_client [ none ↦ [] | some c ↦ peers c ]
