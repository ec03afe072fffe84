-- ===== src/Phase0/Transport/Connections.antt =====
-- The TCP side of phase0/transport.py: where a message is relayed, and under which session it goes.
use census_konantgit_sys_p2p.Prelude.{
  ◌∷◌, [], List, ℕ, String, Option, none, some, ◌++◌, All, str_eq, Bool-cases, ◌≢◌, ◌≡◌, inl, false,
  ◌⊎◌, eq_iff, sym, inr, str_ne, append-nil, All-imp, ◌∙◌, refl, append_assoc, ◌&&◌, ltb, length,
}
use census_konantgit_sys_p2p.Phase0.Transport.{
  Bus, Transport, Written, Frame, pub_message, handle_tcp, rename, write_each, write, tcp_broadcast,
  get_session_for_peer, is_excluded, pub_frame,
}
use census_konantgit_sys_p2p.Dict.{Dict, insert, erase}
use census_konantgit_sys_p2p.Phase0.Hex.{Bytes}

module _ (connection : ℕ) where
  -- The connection has no other name than this one.
  abbrev pub IsNamed : String → Dict ℕ → Type 0
  IsNamed name = All (λ e. e.1 ≡ connection → e.0 ≡ name)

  -- Nothing is written to the connection.
  abbrev pub NotTo : List Written → Type 0
  NotTo = All (λ w. w.connection ≢ connection)

  IsNamed-insert :
      (sender peer_id : String) (d : Dict ℕ)
      → IsNamed peer_id d
      → All (λ e. e.1 ≡ connection → (e.0 ≡ sender) ⊎ (e.0 ≡ peer_id)) (insert sender connection d)
  unfolding insert
  IsNamed-insert sender peer_id [] h = (λ _. inl refl, tt)
  IsNamed-insert sender peer_id ((name, c) ∷ d) h = elim (Bool-cases (str_eq name sender)) [
    | inl same ↦
        rw same (
          λ _. inl ((eq_iff name sender).0 same),
          All-imp (λ x named there. inr (named there)) d h.1,
        )
    | inr differ ↦ rw differ (λ there. inr (h.0 there), IsNamed-insert sender peer_id d h.1)
  ]

  IsNamed-erase :
      (sender peer_id : String) (d : Dict ℕ)
      → All (λ e. e.1 ≡ connection → (e.0 ≡ sender) ⊎ (e.0 ≡ peer_id)) d
      → IsNamed sender (erase peer_id d)
  unfolding erase
  IsNamed-erase sender peer_id [] h = tt
  IsNamed-erase sender peer_id ((name, c) ∷ d) h = elim (Bool-cases (str_eq name peer_id)) [
    | inl same ↦ rw same (IsNamed-erase sender peer_id d h.1)
    | inr differ ↦ rw differ (
      λ there. elim (h.0 there) [ inl e ↦ e | inr e ↦ absurd (str_ne name peer_id differ e) ],
      IsNamed-erase sender peer_id d h.1,
    )
  ]

  rename-IsNamed :
      (sender : Option String) (peer_id : String) (d : Dict ℕ)
      → IsNamed peer_id d
      → IsNamed (rename sender peer_id connection d).0 (rename sender peer_id connection d).1
  unfolding rename
  rename-IsNamed none peer_id d h = h
  rename-IsNamed (some sender) peer_id d h = elim (Bool-cases (str_eq sender peer_id)) [
    | inl same ↦ rw same h
    | inr differ ↦ rw differ (
        IsNamed-erase sender peer_id (insert sender connection d)
          (IsNamed-insert sender peer_id d h))
  ]

  write_each-NotTo :
      (frame : Frame) (name : String) (d : Dict ℕ) (t : Transport)
      → str_eq name "" ≡ false
      → IsNamed name d
      → (new : List Written) × ((write_each frame (some name) d t).written ≡ t.written ++ new)
        × NotTo new
  unfolding write_each write is_excluded
  write_each-NotTo frame name [] t full h = ([], sym (append-nil t.written), tt)
  write_each-NotTo frame name ((peer_id, c) ∷ d) t full h =
      elim (Bool-cases (str_eq peer_id name)) [
        | inl same ↦ rw (same, full, write_each) (write_each-NotTo frame name d t full h.1)
        | inr differ ↦
            let w : Written = record {
              connection = c;
              session = get_session_for_peer peer_id t;
              frame = frame;
            } in
            let t' = write c (get_session_for_peer peer_id t) frame t in
            let (new, e, away) = write_each-NotTo frame name d t' full h.1 in
            rw (differ, full, write_each)
              (
                w ∷ new,
                e ∙ append_assoc t.written (w ∷ []) new,
                (λ there. str_ne peer_id name differ (h.0 there), away),
              )
      ]

  write_each-connections :
      (frame : Frame) (exclude : Option String) (d : Dict ℕ) (t : Transport)
      → (write_each frame exclude d t).tcp_connections ≡ t.tcp_connections
  unfolding write_each write
  write_each-connections frame exclude [] t = refl
  write_each-connections frame exclude ((peer_id, c) ∷ d) t =
      elim (Bool-cases (is_excluded exclude peer_id)) [
        | inl e ↦ rw (e, write_each) (write_each-connections frame exclude d t)
        | inr e ↦
            rw (e, write_each)
              (write_each-connections frame exclude d
                (write c (get_session_for_peer peer_id t) frame t))
      ]

  -- A message that comes over a connection with just one name, whatever sender it names but the empty text: the connection has just one name afterwards, and what a relaying node writes for the message goes to other connections only.
  handle_tcp-NotTo :
      (topic : String) (payload : Bytes) (sender : Option String) (peer_id : String)
      (session : Option String) (t : Transport) (bus : Bus)
      → IsNamed peer_id t.tcp_connections
      → let (name, after, _) =
          handle_tcp (pub_message topic payload sender) peer_id connection session t bus in
        str_eq name "" ≡ false
        → IsNamed name after.tcp_connections
          × ((new : List Written) × (after.written ≡ t.written ++ new) × NotTo new)
  unfolding handle_tcp tcp_broadcast
  handle_tcp-NotTo topic payload sender peer_id session t bus h full =
      let (name, table) = rename sender peer_id connection t.tcp_connections in
      let named = rename-IsNamed sender peer_id t.tcp_connections h in
      let renamed = record t { tcp_connections = table } in
      let frame = pub_frame topic payload t.node_id in
      elim (Bool-cases (t.relay && ltb 1 (length table))) [
        | inr quiet ↦ rw quiet (named, ([], sym (append-nil t.written), tt))
        | inl relays ↦ rw relays (
          rw (write_each-connections frame (some name) table renamed) named,
          write_each-NotTo frame name table renamed full named,
        )
      ]
