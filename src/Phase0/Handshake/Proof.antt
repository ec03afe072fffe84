-- ===== src/Phase0/Handshake/Proof.antt =====
-- What a side of phase0/handshake.py has seen when it ends with a session.
use census_konantgit_sys_p2p.Prelude.{
  String, Option, some, ◌≡◌, true, Option-cases, Bool-cases, Bool, not, ◌&&◌, inl, length, false,
  ◌==◌, ap, inr, sym, refl, ◌∙◌, none, [], ◌∷◌,
}
use census_konantgit_sys_p2p.Phase0.Handshake.{
  Agreement, Line, Checked, accepted, refused, failed, Greeted, Greeting, server_auth,
  client_challenge, is_expected, verify_hex, session_with, read, check, value, field,
  derive_session_key, has_type, is_empty, is_empty_text, message, closed, undecodable, other_json,
}
use census_konantgit_sys_p2p.Phase0.Handshake.Checks.{>>=-accepted, check-accepted}
use census_konantgit_sys_p2p.Phase0.Session.{new_session, SecureSession}
use census_konantgit_sys_p2p.Phase0.Identity.{Signatures}
use census_konantgit_sys_p2p.Phase0.Hex.{Bytes, fromhex}
use census_konantgit_sys_p2p.Dict.{Dict, get_or, lookup}
use census_konantgit_sys_p2p.Outcome.{assertion_error}

and-right : (a b : Bool) → (a && b) ≡ true → b ≡ true
and-right true b h = h
and-right false b h = absurd (cc)

-- What comes after the `auth`.
abbrev after : {A B : Type 0} → Checked (A × Checked B) → Checked B
after (accepted (_, c)) = c
after refused = refused
after (failed e) = failed e

session_with-peer :
    (key : Bytes) (peer : String) (s : SecureSession)
    → session_with key peer ≡ accepted s
    → (s.peer_pubkey_hex ≡ some peer) × (s.key ≡ key)
unfolding session_with new_session
session_with-peer key peer s h = elim (Bool-cases (length key == 32)) [
  | inl e ↦
      let made : session_with key peer
          ≡ accepted
              (record { key = key; send_seq = 0; recv_seq = 0; peer_pubkey_hex = some peer }) =
        rw (e, session_with) refl in
      let same : s ≡ record { key = key; send_seq = 0; recv_seq = 0; peer_pubkey_hex = some peer } =
        cc in
      (ap (λ t. t.peer_pubkey_hex) same, ap (λ t. t.key) same)
  | inr e ↦
      let none_made : session_with key peer ≡ failed assertion_error = rw (e, session_with) refl in
      cc
]

read-accepted : (line : Line) (m : Dict String) → read line ≡ accepted m → line ≡ message m
unfolding read
read-accepted closed m h = cc
read-accepted undecodable m h = cc
read-accepted other_json m h = cc
read-accepted (message m') m h = let same : m' ≡ m = cc in ap message same

value-accepted : {A : Type 0} (o : Option A) (a : A) → value o ≡ accepted a → o ≡ some a
unfolding value
value-accepted none a h = cc
value-accepted (some b) a h = let same : b ≡ a = cc in ap some same

nothing_in_blank : (b : Bytes) → fromhex "" ≡ some b → not (is_empty b) ≡ true → ⊥
unfolding fromhex is_empty
nothing_in_blank [] h full = cc
nothing_in_blank (x ∷ b) h full = cc

-- A field that is read as some bytes is there.
field-some :
    (k : String) (m : Dict String) (b : Bytes)
    → fromhex (field k m) ≡ some b
    → not (is_empty b) ≡ true
    → (text : String) × (lookup k m ≡ some text) × (fromhex text ≡ some b)
unfolding field get_or
field-some k m b h full = elim (Option-cases (lookup k m)) [
  | inr (text, e) ↦
      let read_text : field k m ≡ text = rw (e, get_or) refl in
      (text, e, sym (ap fromhex read_text) ∙ h)
  | inl e ↦
      let blank : field k m ≡ "" = rw (e, get_or) refl in
      absurd (nothing_in_blank b (sym (ap fromhex blank) ∙ h) full)
]

module _ {S X : Type 0} (ed : Signatures S) (dh : Agreement X) where
  verify_hex-true :
      (s : String) (sig nonce : Bytes)
      → verify_hex ed dh s sig nonce ≡ true
      → (raw : Bytes) × (fromhex s ≡ some raw) × (ed.verify raw sig nonce ≡ true)
  unfolding verify_hex
  verify_hex-true s sig nonce h = elim (Option-cases (fromhex s)) [
    | inl e ↦ let bad : verify_hex ed dh s sig nonce ≡ false = rw (e, verify_hex) refl in cc
    | inr (raw, e) ↦
        let opened : verify_hex ed dh s sig nonce ≡ (ed.is_public raw && ed.verify raw sig nonce) =
          rw (e, verify_hex) refl in
        (raw, e, and-right (ed.is_public raw) (ed.verify raw sig nonce) (sym opened ∙ h))
  ]

  -- Whatever line the server gets for `auth`: it makes a session only if the line is a dictionary whose "nonce_sig" is a text, in hexadecimal, of a signature that verifies, under the public key of the client's hello, over the nonce that this server chose; and the session's peer is that key.
  pub server_auth-verified :
      (g : Greeted X) (line : Line) (s : SecureSession)
      → server_auth ed dh g line ≡ accepted s
      → (s.peer_pubkey_hex ≡ some g.client_pubkey_hex)
        × ((auth : Dict String) × (text : String) × (raw : Bytes) × (sig : Bytes) × (line
              ≡ message auth)
            × (lookup "nonce_sig" auth ≡ some text)
            × (fromhex text ≡ some sig)
            × (fromhex g.client_pubkey_hex ≡ some raw)
            × (ed.verify raw sig g.server_nonce ≡ true))
  unfolding server_auth
  server_auth-verified g line s h =
      let (auth, read_it, h1) = >>=-accepted (read line) _ s h in
      let (_, _, h2) = >>=-accepted (check (has_type "auth" auth)) _ s h1 in
      let (sig, given, h3) = >>=-accepted (value (fromhex (field "nonce_sig" auth))) _ s h2 in
      let (_, full, h4) = >>=-accepted (check (not (is_empty sig))) _ s h3 in
      let (_, c, h5) =
        >>=-accepted (check (verify_hex ed dh g.client_pubkey_hex sig g.server_nonce)) _ s h4 in
      let (key, _, h6) =
        >>=-accepted
          (derive_session_key ed dh g.server_eph_priv g.client_eph_pub_hex g.client_nonce
            g.server_nonce)
          _ s h5 in
      let (raw, e, v) =
        verify_hex-true g.client_pubkey_hex sig g.server_nonce (check-accepted _ c) in
      let (text, there, opened) =
        field-some "nonce_sig" auth sig (value-accepted _ sig given) (check-accepted _ full) in
      (
        (session_with-peer key g.client_pubkey_hex s h6).0,
        (auth, text, raw, sig, read-accepted line auth read_it, there, opened, e, v),
      )

  -- Whatever line the client gets for `challenge`: it makes a session only if there is a signature that verifies, under the public key of the session's peer, over the nonce that this client chose, and that key is the expected one, where one is expected.
  client_challenge-verified :
      (identity : S) (expected : Option String) (g : Greeting X) (line : Line) (auth : Dict String)
      (s : SecureSession)
      → client_challenge ed dh identity expected g line ≡ accepted (auth, accepted s)
      → (pubkey : String) × (raw : Bytes) × (sig : Bytes) × (s.peer_pubkey_hex ≡ some pubkey)
        × (is_expected expected pubkey ≡ true)
        × (fromhex pubkey ≡ some raw)
        × (ed.verify raw sig g.client_nonce ≡ true)
  unfolding client_challenge
  client_challenge-verified identity expected g line auth s h =
      let (challenge, _, h1) = >>=-accepted (read line) _ _ h in
      let (_, _, h2) = >>=-accepted (check (has_type "challenge" challenge)) _ _ h1 in
      let (nonce, _, h3) = >>=-accepted (value (fromhex (field "nonce" challenge))) _ _ h2 in
      let (sig, _, h4) = >>=-accepted (value (fromhex (field "nonce_sig" challenge))) _ _ h3 in
      let pubkey = field "server_pubkey" challenge in
      let (_, _, h5) =
        >>=-accepted
          (check (
            length nonce == 32
            && not (is_empty_text pubkey)
            && not (is_empty sig)
            && not (is_empty_text (field "eph_pub" challenge))))
          _ _ h4 in
      let (_, known, h6) = >>=-accepted (check (is_expected expected pubkey)) _ _ h5 in
      let (_, c, h7) = >>=-accepted (check (verify_hex ed dh pubkey sig g.client_nonce)) _ _ h6 in
      let (key, _, h8) =
        >>=-accepted
          (derive_session_key ed dh g.client_eph_priv (field "eph_pub" challenge) g.client_nonce
            nonce)
          _ s (ap after h7) in
      let (raw, e, v) = verify_hex-true pubkey sig g.client_nonce (check-accepted _ c) in
      (pubkey, raw, sig, (session_with-peer key pubkey s h8).0, check-accepted _ known, e, v)
