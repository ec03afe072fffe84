-- ===== src/Relay/Server/Names.antt =====
-- Two connections to relay/server.py that register one public key. The server does not compare the key of
-- `register` with the key of the handshake.
use census_konantgit_sys_p2p.Prelude.{
  ◌∷◌, [], List, ℕ, String, none, some, true, ◌≢◌, ◌≡◌, Bool-cases, str_eq-false, inl, refl, inr,
  ap, ◌∙◌, eq_refl,
}
use census_konantgit_sys_p2p.Relay.Server.{
  RelayServer, AgentSession, wait_register, leave, broadcast_peers_update, send_to_each,
  send_peers_list, send_encrypted, welcome,
}
use census_konantgit_sys_p2p.Dict.{lookup, insert, erase, lookup-insert_self, values, lookup-erase}

send_to_each-agents :
    (agents : List AgentSession) (s : RelayServer) → (send_to_each agents s).agents ≡ s.agents
unfolding send_to_each send_peers_list send_encrypted
send_to_each-agents [] s = refl
send_to_each-agents (a ∷ agents) s = elim (Bool-cases a.connected) [
  | inl e ↦ rw e (send_to_each-agents agents (send_peers_list a s))
  | inr e ↦ rw e (send_to_each-agents agents s)
]

unfoldable pub session : ℕ → String → List String → AgentSession
session connection pubkey capabilities = record {
  pubkey = pubkey;
  connection = connection;
  capabilities = capabilities;
  connected = true;
}

wait_register-session :
    (connection : ℕ) (pubkey : String) (capabilities : List String) (s : RelayServer)
    → pubkey ≢ ""
    → wait_register connection true pubkey capabilities s ≡ (
      some (session connection pubkey capabilities),
      record s { agents = insert pubkey (session connection pubkey capabilities) s.agents },
    )
unfolding wait_register session
wait_register-session connection pubkey capabilities s full = rw (str_eq-false pubkey "" full) refl

-- A connection that registers a public key under which another connection is registered takes its place: messages to the key go to the newer connection. When the older one ends, the key is nobody's, though the newer connection goes on.
pub register_twice :
    (old new : ℕ) (pubkey ip : String) (old_caps new_caps : List String) (s : RelayServer)
    → pubkey ≢ ""
    → let first = session old pubkey old_caps in
      let (signed, s1) = wait_register old true pubkey old_caps s in
      let s2 = (wait_register new true pubkey new_caps (welcome first s1)).1 in
      (signed ≡ some first)
      × (lookup pubkey s2.agents ≡ some (session new pubkey new_caps))
      × (lookup pubkey (leave (some first) ip s2).agents ≡ none)
unfolding leave broadcast_peers_update session
register_twice old new pubkey ip old_caps new_caps s full =
    let first = session old pubkey old_caps in
    let second = session new pubkey new_caps in
    let s1 = (wait_register old true pubkey old_caps s).1 in
    let s2 = (wait_register new true pubkey new_caps (welcome first s1)).1 in
    let there =
      ap (λ x. x.1.agents) (wait_register-session new pubkey new_caps (welcome first s1) full) in
    let left = record s2 { agents = erase pubkey s2.agents } in
    (
      ap (λ x. x.0) (wait_register-session old pubkey old_caps s full),
      ap (lookup pubkey) there ∙ lookup-insert_self pubkey second (welcome first s1).agents,
      ap (lookup pubkey) (send_to_each-agents (values left.agents) left)
          ∙ lookup-erase pubkey pubkey s2.agents
          ∙ rw (eq_refl pubkey) refl,
    )
