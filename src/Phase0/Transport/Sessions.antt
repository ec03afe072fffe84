-- ===== src/Phase0/Transport/Sessions.antt =====
-- Under which session a transport of phase0/transport.py writes to its TLS connections.
use text.Mathlib.Text.{starts_with}
use census_konantgit_sys_p2p.Prelude.{
  ◌∷◌, [], List, ℕ, String, Option, none, some, ◌++◌, str_eq, ◌≡◌, false, eq_iff, refl,
  append_assoc, true, Bool, if◌then◌else◌, ◌||◌, str_eq-false, subst, arith, eq_refl,
}
use census_konantgit_sys_p2p.Phase0.Transport.{
  Bus, Transport, Written, Frame, pub_message, handle_tcp, rename, write_each, write, tcp_broadcast,
  get_session_for_peer, first_session, text_in, is_excluded, pub_frame, publish, strip_newlines,
  with_newline,
}
use census_konantgit_sys_p2p.Dict.{insert, erase}
use census_konantgit_sys_p2p.Phase0.Hex.{Bytes}

-- All connections of TLS peers get the session of one peer.
get_session_for_peer-first :
    (peer_id prefix : String) (rest : List String) (t : Transport)
    → t.use_tls ≡ true
    → t.tls_sessions ≡ prefix ∷ rest
    → starts_with peer_id "tls:" ≡ true
    → get_session_for_peer peer_id t ≡ some prefix
unfolding get_session_for_peer first_session
get_session_for_peer-first peer_id prefix rest t tls sessions named =
    rw (tls, sessions) (rw named (or_true (text_in prefix peer_id)))
  where
    or_true :
        (b : Bool) → (if b || true then some prefix else first_session peer_id rest) ≡ some prefix
    or_true true = refl
    or_true false = refl

abbrev pub encrypted_for : Option String → ℕ → Frame → Written
encrypted_for session connection frame = record {
  connection = connection;
  session = session;
  frame = frame;
}

-- A node with TLS connections to two peers publishes: both connections get the message encrypted under the session with the peer that connected first.
pub publish-first_session :
    (topic a b first second : String) (ca cb : ℕ) (payload : Bytes) (t : Transport) (bus : Bus)
    → t.use_tls ≡ true
    → t.tls_sessions ≡ first ∷ second ∷ []
    → t.tcp_connections ≡ (a, ca) ∷ (b, cb) ∷ []
    → starts_with a "tls:" ≡ true
    → starts_with b "tls:" ≡ true
    → let frame = pub_frame topic (strip_newlines (with_newline payload)) t.node_id in
      (publish topic payload t bus).0.written
      ≡ t.written ++ encrypted_for (some first) ca frame ∷ encrypted_for (some first) cb frame ∷ []
unfolding publish tcp_broadcast write_each write is_excluded
publish-first_session topic a b first second ca cb payload t bus tls sessions table ha hb =
    let frame = pub_frame topic (strip_newlines (with_newline payload)) t.node_id in
    let to_a = get_session_for_peer-first a first (second ∷ []) t tls sessions ha in
    let t' = write ca (get_session_for_peer a t) frame t in
    let to_b = get_session_for_peer-first b first (second ∷ []) t' tls sessions hb in
    rw (table, to_a, to_b)
      (append_assoc t.written (encrypted_for (some first) ca frame ∷ [])
        (encrypted_for (some first) cb frame ∷ []))

-- A TLS connection after a first message over it that names its sender, by a name that does not begin with `tls:` and has no session's prefix in it: what the node publishes goes over this connection unencrypted.
publish-renamed :
    (topic own prefix sender : String) (c : ℕ) (first payload : Bytes) (t : Transport) (bus : Bus)
    → t.use_tls ≡ true
    → t.relay ≡ false
    → t.tls_sessions ≡ prefix ∷ []
    → t.tcp_connections ≡ (own, c) ∷ []
    → starts_with own "tls:" ≡ true
    → starts_with sender "tls:" ≡ false
    → text_in prefix sender ≡ false
    → let (_, after, bus') =
        handle_tcp (pub_message topic first (some sender)) own c (some prefix) t bus in
      let frame = pub_frame topic (strip_newlines (with_newline payload)) t.node_id in
      (get_session_for_peer own t ≡ some prefix)
      × ((publish topic payload after bus').0.written
          ≡ t.written ++ encrypted_for none c frame ∷ [])
unfolding publish tcp_broadcast write_each write is_excluded handle_tcp rename insert erase
publish-renamed topic own prefix sender c first payload t bus tls plain sessions table named unnamed
      apart =
    let differ : str_eq sender own ≡ false =
      str_eq-false sender own
        (λ e. let both = subst (λ x. starts_with x "tls:" ≡ false) e unnamed in absurd (cc)) in
    let differ' : str_eq own sender ≡ false =
      ground (arith, eq_iff own sender, eq_iff sender own) in
    let table' : erase own (insert sender c ((own, c) ∷ [])) ≡ (sender, c) ∷ [] =
      rw (differ', eq_refl own, differ) refl in
    (
      get_session_for_peer-first own prefix [] t tls sessions named,
      rw (differ, table) (rw (table', plain) (rw (tls, sessions) (rw (apart, unnamed) refl))),
    )
