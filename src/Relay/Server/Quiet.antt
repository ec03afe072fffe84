-- ===== src/Relay/Server/Quiet.antt =====
-- The parts of relay/server.py that leave its count of connections alone.
use census_konantgit_sys_p2p.Prelude.{
  ◌∷◌, [], List, ℕ, String, Option, none, some, inl, ◌≡◌, Bool, Bool-cases, Option-cases, ltb, ◌∙◌,
  not, leb, inr, str_eq, refl, ◌||◌, length,
}
use census_konantgit_sys_p2p.Relay.Server.{
  RelayServer, AgentSession, Input, wait_register, welcome, handle, send_encrypted, send_to_each,
  send_peers_list, broadcast_peers_update, check_rate_limit, drop_old, to_target, dispatch,
  handle_send, register, Output, is_limited, e2e_init, registered, e2e_accept, pubkey_prefix, send,
  ping, other_input,
}
use census_konantgit_sys_p2p.Dict.{get_or, values, lookup}
use Prim.Native.String.{count}

-- What a step that is not about connections leaves as it is.
abbrev pub Quiet : RelayServer → RelayServer → Type 0
Quiet s t =
    (t.ip_connections ≡ s.ip_connections) × (t.max_connections_per_ip ≡ s.max_connections_per_ip)

pub send_to_each-Quiet :
    (agents : List AgentSession) (s : RelayServer) → Quiet s (send_to_each agents s)
unfolding send_to_each send_peers_list send_encrypted
send_to_each-Quiet [] s = (refl, refl)
send_to_each-Quiet (a ∷ agents) s = elim (Bool-cases a.connected) [
  | inl e ↦ rw e (send_to_each-Quiet agents (send_peers_list a s))
  | inr e ↦ rw e (send_to_each-Quiet agents s)
]

to_target-Quiet :
    (a : AgentSession) (target : String) (m : Option Output) (s : RelayServer)
    → Quiet s (to_target a target m s)
unfolding to_target send_encrypted
to_target-Quiet a target none s = elim (Option-cases (lookup target s.agents)) [
  | inl e ↦ rw (e, to_target) (refl, refl)
  | inr (t, e) ↦
      rw (e, to_target)
        (elim (Bool-cases t.connected) [ inl c ↦ rw c (refl, refl) | inr c ↦ rw c (refl, refl) ])
]
to_target-Quiet a target (some x) s = elim (Option-cases (lookup target s.agents)) [
  | inl e ↦ rw (e, to_target) (refl, refl)
  | inr (t, e) ↦
      rw (e, to_target)
        (elim (Bool-cases t.connected) [ inl c ↦ rw c (refl, refl) | inr c ↦ rw c (refl, refl) ])
]

handle_send-Quiet :
    (a : AgentSession) (target payload : Option String) (s : RelayServer)
    → Quiet s (handle_send a target payload s)
unfolding handle_send send_encrypted
handle_send-Quiet a none payload s = (refl, refl)
handle_send-Quiet a (some target) none s = (refl, refl)
handle_send-Quiet a (some target) (some payload) s =
    elim (Bool-cases (ltb s.max_payload_bytes (count payload))) [
      | inl large ↦ rw large (refl, refl)
      | inr small ↦ rw small (elim (Option-cases (lookup target s.agents)) [
        | inl e ↦ rw (e, handle_send) (refl, refl)
        | inr (t, e) ↦
            rw (e, handle_send)
              (elim (Bool-cases t.connected) [
                | inl c ↦ rw c (refl, refl)
                | inr c ↦ rw c (refl, refl)
              ])
      ])
    ]

dispatch-Quiet : (m : Input) (a : AgentSession) (s : RelayServer) → Quiet s (dispatch m a s).1
unfolding dispatch send_encrypted
dispatch-Quiet (register none) a s = (refl, refl)
dispatch-Quiet (register (some capabilities)) a s = (refl, refl)
dispatch-Quiet (e2e_init none eph_pub) a s = (refl, refl)
dispatch-Quiet (e2e_init (some target) eph_pub) a s = to_target-Quiet a target _ s
dispatch-Quiet (e2e_accept none eph_pub) a s = (refl, refl)
dispatch-Quiet (e2e_accept (some target) eph_pub) a s = to_target-Quiet a target _ s
dispatch-Quiet (send target payload) a s = handle_send-Quiet a target payload s
dispatch-Quiet ping a s = (refl, refl)
dispatch-Quiet other_input a s = (refl, refl)

check_rate_limit-Quiet :
    (peer_id : String) (now : ℕ) (s : RelayServer) → Quiet s (check_rate_limit peer_id now s).1
unfolding check_rate_limit
check_rate_limit-Quiet peer_id now s =
    elim (Bool-cases
      (leb s.max_msgs_per_sec (length (drop_old s.second now (get_or peer_id [] s.rate_limits))))) [
        | inl e ↦ rw e (refl, refl)
        | inr e ↦ rw e (refl, refl)
      ]

pub handle-Quiet :
    (m : Input) (now : ℕ) (a : AgentSession) (s : RelayServer) → Quiet s (handle m now a s).1
unfolding handle send_encrypted
handle-Quiet m now a s = elim (Bool-cases (is_limited m)) [
  | inr free ↦ rw free (dispatch-Quiet m a s)
  | inl limited ↦
      let checked = check_rate_limit (pubkey_prefix a) now s in
      let quiet = check_rate_limit-Quiet (pubkey_prefix a) now s in
      rw limited (elim (Bool-cases checked.0) [
        | inl passed ↦
            let later = dispatch-Quiet m a checked.1 in
            rw passed (later.0 ∙ quiet.0, later.1 ∙ quiet.1)
        | inr over ↦ rw over quiet
      ])
]

pub wait_register-Quiet :
    (connection : ℕ) (is_register : Bool) (pubkey : String) (capabilities : List String)
    (s : RelayServer)
    → Quiet s (wait_register connection is_register pubkey capabilities s).1
unfolding wait_register
wait_register-Quiet connection is_register pubkey capabilities s =
    elim (Bool-cases (not is_register || str_eq pubkey "")) [
      | inl e ↦ rw e (refl, refl)
      | inr e ↦ rw e (refl, refl)
    ]

pub welcome-Quiet : (a : AgentSession) (s : RelayServer) → Quiet s (welcome a s)
unfolding welcome broadcast_peers_update send_peers_list send_encrypted
welcome-Quiet a s =
    send_to_each-Quiet (values s.agents)
      (send_peers_list a (send_encrypted a.connection (registered (pubkey_prefix a)) s))
