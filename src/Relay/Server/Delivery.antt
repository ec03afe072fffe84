-- ===== src/Relay/Server/Delivery.antt =====
-- What relay/server.py writes for a message of an agent.
use Prim.Native.String.{count}
use census_konantgit_sys_p2p.Prelude.{
  ◌∷◌, [], ℕ, String, Option, none, some, ◌++◌, inl, ◌≡◌, inr, Bool-cases, subst, Option-cases, leb,
  ltb, ◌⊎◌, true, some-injective, length, refl, ◌≤◌, false, arith, ap, ◌∙◌,
}
use census_konantgit_sys_p2p.Relay.Server.{
  RelayServer, AgentSession, Input, Output, handle, send_encrypted, check_rate_limit, to_target,
  dispatch, handle_send, register, e2e_init, e2e_accept, send, ping, other_input, registered, peers,
  error, e2e_req, e2e_ready, recv, pong, pubkey_prefix, is_limited, target_not_found, rate_limited,
  payload_too_large, ErrorCode, drop_old,
}
use census_konantgit_sys_p2p.Dict.{lookup, get_or}

-- The message names no other agent than this one as its sender.
abbrev pub IsFrom : String → Output → Type 0
IsFrom pubkey (registered _) = Unit
IsFrom pubkey (peers _) = Unit
IsFrom pubkey (error _) = Unit
IsFrom pubkey (e2e_req sender _) = sender ≡ pubkey
IsFrom pubkey (e2e_ready sender _) = sender ≡ pubkey
IsFrom pubkey (recv sender _) = sender ≡ pubkey
IsFrom pubkey pong = Unit

-- At most one message is written, and it is from this agent.
abbrev pub IsAnswered : String → RelayServer → RelayServer → Type 0
IsAnswered pubkey s t =
    (t.outbox ≡ s.outbox)
    ⊎ ((connection : ℕ) × (m : Output) × (t.outbox ≡ s.outbox ++ (connection, m) ∷ [])
        × IsFrom pubkey m)

one_error :
    (a : AgentSession) (code : ErrorCode) (s : RelayServer)
    → IsAnswered a.pubkey s (send_encrypted a.connection (error code) s)
unfolding send_encrypted
one_error a code s = inr (a.connection, error code, refl, tt)

to_target-IsAnswered :
    (a : AgentSession) (target : String) (m : Option Output) (s : RelayServer)
    → ((x : Output) → m ≡ some x → IsFrom a.pubkey x)
    → IsAnswered a.pubkey s (to_target a target m s)
unfolding to_target send_encrypted
to_target-IsAnswered a target none s from = elim (Option-cases (lookup target s.agents)) [
  | inl e ↦ rw (e, to_target) (one_error a target_not_found s)
  | inr (t, e) ↦
      rw (e, to_target)
        (elim (Bool-cases t.connected) [
          | inl c ↦ rw c (inl refl)
          | inr c ↦ rw c (one_error a target_not_found s)
        ])
]
to_target-IsAnswered a target (some x) s from = elim (Option-cases (lookup target s.agents)) [
  | inl e ↦ rw (e, to_target) (one_error a target_not_found s)
  | inr (t, e) ↦
      rw (e, to_target)
        (elim (Bool-cases t.connected) [
          | inl c ↦ rw c (inr (t.connection, x, refl, from x refl))
          | inr c ↦ rw c (one_error a target_not_found s)
        ])
]

handle_send-IsAnswered :
    (a : AgentSession) (target payload : Option String) (s : RelayServer)
    → IsAnswered a.pubkey s (handle_send a target payload s)
unfolding handle_send send_encrypted
handle_send-IsAnswered a none payload s = inl refl
handle_send-IsAnswered a (some target) none s = inl refl
handle_send-IsAnswered a (some target) (some payload) s =
    elim (Bool-cases (ltb s.max_payload_bytes (count payload))) [
      | inl large ↦ rw large (one_error a payload_too_large s)
      | inr small ↦ rw small (elim (Option-cases (lookup target s.agents)) [
        | inl e ↦ rw (e, handle_send) (inl refl)
        | inr (t, e) ↦
            rw (e, handle_send)
              (elim (Bool-cases t.connected) [
                | inl c ↦ rw c (inr (t.connection, recv a.pubkey payload, refl, refl))
                | inr c ↦ rw c (inl refl)
              ])
      ])
    ]

dispatch-IsAnswered :
    (m : Input) (a : AgentSession) (s : RelayServer) → IsAnswered a.pubkey s (dispatch m a s).1
unfolding dispatch send_encrypted
dispatch-IsAnswered (register none) a s = inr (a.connection, registered (pubkey_prefix a), refl, tt)
dispatch-IsAnswered (register (some capabilities)) a s =
    inr (a.connection, registered (pubkey_prefix a), refl, tt)
dispatch-IsAnswered (e2e_init none eph_pub) a s = inl refl
dispatch-IsAnswered (e2e_init (some target) none) a s =
    to_target-IsAnswered a target none s (λ x e. absurd (cc))
dispatch-IsAnswered (e2e_init (some target) (some eph)) a s =
    to_target-IsAnswered a target (some (e2e_req a.pubkey eph)) s
      (λ x e. subst (IsFrom a.pubkey) (some-injective _ _ e) refl)
dispatch-IsAnswered (e2e_accept none eph_pub) a s = inl refl
dispatch-IsAnswered (e2e_accept (some target) none) a s =
    to_target-IsAnswered a target none s (λ x e. absurd (cc))
dispatch-IsAnswered (e2e_accept (some target) (some eph)) a s =
    to_target-IsAnswered a target (some (e2e_ready a.pubkey eph)) s
      (λ x e. subst (IsFrom a.pubkey) (some-injective _ _ e) refl)
dispatch-IsAnswered (send target payload) a s = handle_send-IsAnswered a target payload s
dispatch-IsAnswered ping a s = inr (a.connection, pong, refl, tt)
dispatch-IsAnswered other_input a s = inl refl

check_rate_limit-frame :
    (peer_id : String) (now : ℕ) (s : RelayServer)
    → let t = (check_rate_limit peer_id now s).1 in
      (t.outbox ≡ s.outbox) × (t.agents ≡ s.agents) × (t.max_payload_bytes ≡ s.max_payload_bytes)
unfolding check_rate_limit
check_rate_limit-frame peer_id now s =
    elim (Bool-cases
      (leb s.max_msgs_per_sec (length (drop_old s.second now (get_or peer_id [] s.rate_limits))))) [
        | inl e ↦ rw e (refl, refl, refl)
        | inr e ↦ rw e (refl, refl, refl)
      ]

-- Whatever an agent sends, the server writes at most one message for it, to one connection, and a message that names its sender names the public key this agent has registered.
pub handle-IsAnswered :
    (m : Input) (now : ℕ) (a : AgentSession) (s : RelayServer)
    → IsAnswered a.pubkey s (handle m now a s).1
unfolding handle
handle-IsAnswered m now a s = elim (Bool-cases (is_limited m)) [
  | inr free ↦ rw free (dispatch-IsAnswered m a s)
  | inl limited ↦
      let checked = check_rate_limit (pubkey_prefix a) now s in
      let (same, _, _) = check_rate_limit-frame (pubkey_prefix a) now s in
      rw limited (elim (Bool-cases checked.0) [
        | inl passed ↦ rw passed (
            subst
              (λ o.
                ((dispatch m a checked.1).1.outbox ≡ o)
                ⊎ ((connection : ℕ) × (x : Output) × ((dispatch m a checked.1).1.outbox
                      ≡ o ++ (connection, x) ∷ [])
                    × IsFrom a.pubkey x))
              same (dispatch-IsAnswered m a checked.1))
        | inr over ↦ rw over (
            inr (
              a.connection,
              error rate_limited,
              ap (λ o. o ++ (a.connection, error rate_limited) ∷ []) same,
              tt,
            ))
      ])
]

-- An agent within the rate limit that sends at most `max_payload_bytes` characters to a connected agent: the server writes them, with the sender's public key, to the target's connection and writes nothing else, and the directory of agents stays as it is.
pub handle-send :
    (target payload : String) (now : ℕ) (a t : AgentSession) (s : RelayServer)
    → (check_rate_limit (pubkey_prefix a) now s).0 ≡ true
    → count payload ≤ s.max_payload_bytes
    → lookup target s.agents ≡ some t
    → t.connected ≡ true
    → let after = (handle (send (some target) (some payload)) now a s).1 in
      (after.outbox ≡ s.outbox ++ (t.connection, recv a.pubkey payload) ∷ [])
      × (after.agents ≡ s.agents)
unfolding handle dispatch handle_send send_encrypted
handle-send target payload now a t s passed small there connected =
    let checked = check_rate_limit (pubkey_prefix a) now s in
    let (same, agents, size) = check_rate_limit-frame (pubkey_prefix a) now s in
    let fits : ltb checked.1.max_payload_bytes (count payload) ≡ false = ground (arith, size) in
    let found : lookup target checked.1.agents ≡ some t = ap (lookup target) agents ∙ there in
    rw passed (
      rw fits (
        rw (found, handle_send)
          (rw connected (ap (λ o. o ++ (t.connection, recv a.pubkey payload) ∷ []) same, agents))))
