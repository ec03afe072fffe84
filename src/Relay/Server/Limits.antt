-- ===== src/Relay/Server/Limits.antt =====
-- The limits of relay/server.py: connections from one address and messages in one second.
use census_konantgit_sys_p2p.Prelude.{
  ◌∷◌, [], List, ℕ, String, Option, none, some, ◌++◌, inl, if◌then◌else◌, ◌≡◌, Bool, Bool-cases,
  ltb, ◌≤◌, ◌∙◌, ap, ◌<◌, ◌+◌, inr, false, str_eq, arith, sym, refl, subst, true, ◌⊎◌, ◌-◌, ltb→lt,
  eq_iff, eq_refl,
}
use census_konantgit_sys_p2p.Relay.Server.Quiet.{
  Quiet, send_to_each-Quiet, handle-Quiet, wait_register-Quiet, welcome-Quiet,
}
use census_konantgit_sys_p2p.Relay.Server.{
  RelayServer, AgentSession, Input, accept, wait_register, welcome, handle, leave, new_server,
  broadcast_peers_update,
}
use census_konantgit_sys_p2p.Dict.{get_or, values, insert, lookup, erase, get_or-insert}

-- An accepted connection: its address, and its agent once there is one.
pub record Open : Type 0 where
  pub ip : String
  pub agent : Option AgentSession

-- The connections of an address.
unfoldable pub opened : String → List Open → ℕ
opened ip [] = 0
opened ip (c ∷ cs) = let n = opened ip cs in if str_eq c.ip ip then n + 1 else n

-- A server and its accepted connections, in whatever order they come, speak and go.
pub data Step : List Open → RelayServer → List Open → RelayServer → Type 0 where
  turned_away :
      {cs : List Open} {s : RelayServer} (ip : String)
      → (accept ip s).0 ≡ false
      → Step cs s cs (accept ip s).1
  let_in :
      {cs : List Open} {s : RelayServer} (ip : String)
      → (accept ip s).0 ≡ true
      → Step cs s (record { ip = ip; agent = none } ∷ cs) (accept ip s).1
  signed_in :
      {s : RelayServer} (before after : List Open) (ip : String) (connection : ℕ)
      (is_register : Bool) (pubkey : String) (capabilities : List String) (a : AgentSession)
      → (wait_register connection is_register pubkey capabilities s).0 ≡ some a
      → Step
          (before ++ record { ip = ip; agent = none } ∷ after)
          s
          (before ++ record { ip = ip; agent = some a } ∷ after)
          (welcome a (wait_register connection is_register pubkey capabilities s).1)
  spoke :
      {s : RelayServer} (before after : List Open) (ip : String) (a : AgentSession) (m : Input)
      (now : ℕ)
      → Step
          (before ++ record { ip = ip; agent = some a } ∷ after)
          s
          (before ++ record { ip = ip; agent = some (handle m now a s).0 } ∷ after)
          (handle m now a s).1
  went :
      {s : RelayServer} (before after : List Open) (c : Open)
      → Step (before ++ c ∷ after) s (before ++ after) (leave c.agent c.ip s)

pub data Run : List Open → RelayServer → List Open → RelayServer → Type 0 where
  stay : {cs : List Open} {s : RelayServer} → Run cs s cs s
  onward :
      {cs ds es : List Open} {s t u : RelayServer} → Run cs s ds t → Step ds t es u → Run cs s es u

-- The server's count of an address is right and within the limit.
abbrev pub IsCounted : List Open → RelayServer → Type 0
IsCounted cs s =
    (ip : String)
    → (get_or ip 0 s.ip_connections ≡ opened ip cs) × (opened ip cs ≤ s.max_connections_per_ip)

opened-append :
    (ip : String) (cs ds : List Open) → opened ip (cs ++ ds) ≡ opened ip cs + opened ip ds
unfolding opened
opened-append ip [] ds = omega arith
opened-append ip (c ∷ cs) ds = ground (arith, opened-append ip cs ds)

Quiet-IsCounted :
    (cs ds : List Open) (s t : RelayServer)
    → ((ip : String) → opened ip ds ≡ opened ip cs)
    → Quiet s t
    → IsCounted cs s
    → IsCounted ds t
Quiet-IsCounted cs ds s t same quiet h ip =
    rw (same ip)
      (ap (get_or ip 0) quiet.0 ∙ (h ip).0, subst (λ n. opened ip cs ≤ n) (sym quiet.1) (h ip).1)

opened-replace :
    (ip : String) (before after : List Open) (c d : Open)
    → c.ip ≡ d.ip
    → opened ip (before ++ d ∷ after) ≡ opened ip (before ++ c ∷ after)
unfolding opened
opened-replace ip before after c d same =
    opened-append ip before (d ∷ after)
    ∙ ap (λ x. opened ip before + (if str_eq x ip then opened ip after + 1 else opened ip after))
        (sym same)
    ∙ sym (opened-append ip before (c ∷ after))

accept-cases :
    (ip : String) (s : RelayServer)
    → let n = get_or ip 0 s.ip_connections in
      ((s.max_connections_per_ip < n + 1)
        × (accept ip s ≡ (false, record s { ip_connections = insert ip n s.ip_connections })))
      ⊎ ((n + 1 ≤ s.max_connections_per_ip)
          × (accept ip s
              ≡ (true, record s { ip_connections = insert ip (n + 1) s.ip_connections })))
unfolding accept
accept-cases ip s =
    let n = get_or ip 0 s.ip_connections in
    let back : n + 1 - 1 ≡ n = omega arith in
    elim (Bool-cases (ltb s.max_connections_per_ip (n + 1))) [
      | inl e ↦ inl (ltb→lt _ _ e, rw (e, back) refl)
      | inr e ↦ inr (ground arith, rw e refl)
    ]

insert-IsCounted :
    (ip : String) (n : ℕ) (s : RelayServer) (cs ds : List Open)
    → IsCounted cs s
    → n ≡ opened ip ds
    → n ≤ s.max_connections_per_ip
    → ((j : String) → str_eq ip j ≡ false → opened j ds ≡ opened j cs)
    → IsCounted ds (record s { ip_connections = insert ip n s.ip_connections })
insert-IsCounted ip n s cs ds h here small apart j = elim (Bool-cases (str_eq ip j)) [
  | inl e ↦
      let there = subst (λ i. n ≡ opened i ds) ((eq_iff ip j).0 e) here in
      (
        get_or-insert ip j n 0 s.ip_connections ∙ rw e there,
        subst (λ k. k ≤ s.max_connections_per_ip) there small,
      )
  | inr e ↦ (
    get_or-insert ip j n 0 s.ip_connections ∙ rw e ((h j).0 ∙ sym (apart j e)),
    subst (λ k. k ≤ s.max_connections_per_ip) (sym (apart j e)) (h j).1,
  )
]

opened-middle :
    (ip : String) (before after : List Open) (c : Open)
    → opened ip (before ++ c ∷ after)
      ≡ (if str_eq c.ip ip then opened ip (before ++ after) + 1 else opened ip (before ++ after))
unfolding opened
opened-middle ip before after c =
    let whole = opened-append ip before (c ∷ after) in
    let parts = opened-append ip before after in
    elim (Bool-cases (str_eq c.ip ip)) [
      | inl e ↦ whole ∙ rw e (omega (arith, parts))
      | inr e ↦ whole ∙ rw e (omega (arith, parts))
    ]

leave_agent-IsCounted :
    (before after : List Open) (c : Open) (s : RelayServer)
    → IsCounted (before ++ c ∷ after) s
    → IsCounted (before ++ after) (record s {
      ip_connections = insert c.ip (get_or c.ip 0 s.ip_connections - 1) s.ip_connections;
    })
leave_agent-IsCounted before after c s h =
    let here : opened c.ip (before ++ c ∷ after) ≡ opened c.ip (before ++ after) + 1 =
      rw (opened-middle c.ip before after c, eq_refl c.ip) refl in
    insert-IsCounted c.ip (get_or c.ip 0 s.ip_connections - 1) s (before ++ c ∷ after)
      (before ++ after) h (omega (arith, here, (h c.ip).0)) (omega (arith, (h c.ip).0, (h c.ip).1))
      (λ j e. sym (opened-middle j before after c ∙ rw e refl))

leave-IsCounted :
    (before after : List Open) (ip : String) (a : Option AgentSession) (s : RelayServer)
    → IsCounted (before ++ record { ip = ip; agent = a } ∷ after) s
    → IsCounted (before ++ after) (leave a ip s)
unfolding leave broadcast_peers_update
leave-IsCounted before after ip none s h =
    leave_agent-IsCounted before after (record { ip = ip; agent = none }) s h
leave-IsCounted before after ip (some a) s h =
    let c : Open = record { ip = ip; agent = some a } in
    let left = record s { agents = erase a.pubkey s.agents } in
    leave_agent-IsCounted before after c (broadcast_peers_update left) (
      Quiet-IsCounted (before ++ c ∷ after) (before ++ c ∷ after) s (broadcast_peers_update left)
        (λ j. refl) (send_to_each-Quiet (values left.agents) left) h)

accept-IsCounted :
    (ip : String) (cs : List Open) (s : RelayServer)
    → IsCounted cs s
    → IsCounted
        (if (accept ip s).0 then record { ip = ip; agent = none } ∷ cs else cs)
        (accept ip s).1
unfolding opened
accept-IsCounted ip cs s h =
    let n = get_or ip 0 s.ip_connections in
    let c : Open = record { ip = ip; agent = none } in
    let here : opened ip (c ∷ cs) ≡ opened ip cs + 1 = rw (eq_refl ip) refl in
    elim (accept-cases ip s) [
      | inl (over, made) ↦ rw made (
          insert-IsCounted ip n s cs cs h (h ip).0 (omega (arith, (h ip).0, (h ip).1))
            (λ j e. refl))
      | inr (room, made) ↦ rw made (
          insert-IsCounted ip (n + 1) s cs (c ∷ cs) h (omega (arith, here, (h ip).0)) room
            (λ j e. rw e refl))
    ]

Step-IsCounted :
    {cs : List Open} {s : RelayServer} {ds : List Open} {t : RelayServer}
    → Step cs s ds t
    → IsCounted cs s
    → IsCounted ds t
Step-IsCounted {cs = cs} {s = s} (turned_away ip e) h =
    subst (λ b. IsCounted (if b then record { ip = ip; agent = none } ∷ cs else cs) (accept ip s).1)
      e (accept-IsCounted ip cs s h)
Step-IsCounted {cs = cs} {s = s} (let_in ip e) h =
    subst (λ b. IsCounted (if b then record { ip = ip; agent = none } ∷ cs else cs) (accept ip s).1)
      e (accept-IsCounted ip cs s h)
Step-IsCounted {s = s} (signed_in before after ip connection is_register pubkey capabilities a e)
      h =
    let new = wait_register connection is_register pubkey capabilities s in
    let quiet = wait_register-Quiet connection is_register pubkey capabilities s in
    let later = welcome-Quiet a new.1 in
    Quiet-IsCounted (before ++ record { ip = ip; agent = none } ∷ after)
      (before ++ record { ip = ip; agent = some a } ∷ after) s (welcome a new.1)
      (λ j.
        opened-replace j before after (record { ip = ip; agent = none })
          (record { ip = ip; agent = some a }) refl)
      (later.0 ∙ quiet.0, later.1 ∙ quiet.1) h
Step-IsCounted {s = s} (spoke before after ip a m now) h =
    Quiet-IsCounted (before ++ record { ip = ip; agent = some a } ∷ after)
      (before ++ record { ip = ip; agent = some (handle m now a s).0 } ∷ after) s
      (handle m now a s).1
      (λ j.
        opened-replace j before after (record { ip = ip; agent = some a })
          (record { ip = ip; agent = some (handle m now a s).0 }) refl)
      (handle-Quiet m now a s) h
Step-IsCounted {s = s} (went before after c) h = leave-IsCounted before after c.ip c.agent s h

Run-IsCounted :
    {cs ds : List Open} {s t : RelayServer} → Run cs s ds t → IsCounted cs s → IsCounted ds t
Run-IsCounted stay h = h
Run-IsCounted (onward before last) h = Step-IsCounted last (Run-IsCounted before h)

-- However connections come, register, speak and go at a fresh server: its count of an address is the number of the accepted connections from there that have not gone, and this is never over the limit.
pub Run-within_limit :
    (second max_msgs max_connections max_payload : ℕ) (cs : List Open) (s : RelayServer)
    → Run [] (new_server second max_msgs max_connections max_payload) cs s
    → IsCounted cs s
unfolding new_server opened get_or lookup
Run-within_limit second max_msgs max_connections max_payload cs s run =
    Run-IsCounted run (λ ip. (refl, omega arith))
