-- ===== src/Relay/Client/Crossing.antt =====
-- Two clients of relay/client.py that ask each other for a session at the same time.
use census_konantgit_sys_p2p.Prelude.{◌∷◌, [], String, Option, none, some, ◌++◌, ◌≡◌, refl}
use census_konantgit_sys_p2p.Phase0.Handshake.{
  Agreement, IsAgreement, Checked, accepted, failed, refused,
}
use census_konantgit_sys_p2p.Relay.Client.{
  RelayClient, Waiting, e2e_req, e2e_ready, establish, resume, handle, salt_of, send_init,
  send_accept,
}
use census_konantgit_sys_p2p.Relay.Client.Exchange.{
  e2e_key, e2e_session, handle_e2e_req-accepted, handle-e2e_ready, resume-answered, establish-new,
}
use census_konantgit_sys_p2p.Phase0.Session.{Cipher}
use census_konantgit_sys_p2p.Phase0.Hex.{Bytes, hex}
use census_konantgit_sys_p2p.Dict.{lookup, insert, erase, lookup-insert_self}

module _ {X : Type 0} (c : Cipher) (dh : Agreement X) (agreement : IsAgreement dh) where
  -- The answer comes, if there is a client.
  abbrev pub then_told : X → X → String → Option (RelayClient X) → Option (RelayClient X)
  then_told answers answering peer none = none
  then_told answers answering peer (some r) =
      handle c dh answers (e2e_ready peer (hex (dh.x_public answering))) r

  abbrev pub if_accepted : Checked (RelayClient X) → Option (RelayClient X)
  if_accepted (accepted r) = some r
  if_accepted refused = none
  if_accepted (failed e) = none

  -- The call of `e2e_establish` goes on.
  abbrev pub then_resumed : String → Option (RelayClient X) → Option (RelayClient X)
  then_resumed peer none = none
  then_resumed peer (some r) = if_accepted (resume c dh peer r)

  -- What a client does that asks `peer` with the key `asks`, is asked by it with the key of `asking` and answers with the key `answers`, and gets the answer with the key of `answering`: nothing, if one of the steps fails.
  abbrev pub crossed :
      (asks answers asking answering : X) → String → RelayClient X → Option (RelayClient X)
  crossed asks answers asking answering peer r = then_resumed peer (
      then_told answers answering peer (
        handle c dh answers (e2e_req peer (hex (dh.x_public asking)))
          (establish c dh asks peer r).1))

  crossed-session :
      (asks answers asking answering : X) (peer : String) (r : RelayClient X)
      (own_salt peer_salt : Bytes)
      → lookup peer r.e2e_sessions ≡ none
      → salt_of r.public_key_hex ≡ some own_salt
      → salt_of peer ≡ some peer_salt
      → (done : RelayClient X) × (crossed asks answers asking answering peer r ≡ some done)
        × (lookup peer done.e2e_sessions
            ≡ some (
                e2e_session c dh agreement
                  (e2e_key c dh agreement asks answering own_salt peer_salt)
                  peer))
  unfolding handle
  crossed-session asks answers asking answering peer r own_salt peer_salt absent hr hp =
      let waiting : Waiting X = record { eph_priv = asks; peer_eph_pub = none } in
      let told : Waiting X = record {
        eph_priv = asks;
        peer_eph_pub = some (hex (dh.x_public answering));
      } in
      let r0 = (establish c dh asks peer r).1 in
      let r0' : RelayClient X = record r {
        e2e_pending = insert peer waiting r.e2e_pending;
        outbox = r.outbox ++ send_init peer (hex (dh.x_public asks)) ∷ [];
      } in
      let first = e2e_key c dh agreement answers asking peer_salt own_salt in
      let r1 : RelayClient X = record r0' {
        e2e_sessions = insert peer (e2e_session c dh agreement first peer) r0'.e2e_sessions;
        outbox = r0'.outbox ++ send_accept peer (hex (dh.x_public answers)) ∷ [];
      } in
      let r2 : RelayClient X = record r1 { e2e_pending = insert peer told r1.e2e_pending } in
      let key = e2e_key c dh agreement asks answering own_salt peer_salt in
      let r3 : RelayClient X = record r2 {
        e2e_sessions = insert peer (e2e_session c dh agreement key peer) r2.e2e_sessions;
        e2e_pending = erase peer r2.e2e_pending;
      } in
      let e0 = establish-new c dh agreement asks peer r absent in
      let e1 =
        handle_e2e_req-accepted c dh agreement answers asking peer peer_salt own_salt r0' hp hr in
      let e2 =
        handle-e2e_ready c dh agreement answers asks peer (hex (dh.x_public answering)) r1
          (lookup-insert_self peer waiting r.e2e_pending) in
      let e3 =
        resume-answered c dh agreement asks answering peer own_salt peer_salt r2
          (lookup-insert_self peer told r1.e2e_pending) hr hp in
      (
        r3,
        rw e0 (rw e1 (rw e2 (rw e3 refl))),
        lookup-insert_self peer (e2e_session c dh agreement key peer) r2.e2e_sessions,
      )

  -- Two clients without a session, each of which asks the other before the other's question has come, answer each other and get each other's answers: `a` then keeps the key of its question and of `b`'s answer, `b` keeps the key of its own question and of `a`'s answer, with the salts the other way round, so that no two ends of one exchange are left.
  crossed-keys :
      (xa xb ya yb : X) (a b : RelayClient X) (sa sb : Bytes)
      → lookup b.public_key_hex a.e2e_sessions ≡ none
      → lookup a.public_key_hex b.e2e_sessions ≡ none
      → salt_of a.public_key_hex ≡ some sa
      → salt_of b.public_key_hex ≡ some sb
      → (a' : RelayClient X) × (b' : RelayClient X) × (crossed xa ya xb yb b.public_key_hex a
          ≡ some a')
        × (crossed xb yb xa ya a.public_key_hex b ≡ some b')
        × (lookup b.public_key_hex a'.e2e_sessions
            ≡ some (
                e2e_session c dh agreement
                  (dh.hkdf (sa ++ sb) (agreement.shared xa yb))
                  b.public_key_hex))
        × (lookup a.public_key_hex b'.e2e_sessions
            ≡ some (
                e2e_session c dh agreement
                  (dh.hkdf (sb ++ sa) (agreement.shared xb ya))
                  a.public_key_hex))
  crossed-keys xa xb ya yb a b sa sb absent_a absent_b ha hb =
      let (a', ea, la) = crossed-session xa ya xb yb b.public_key_hex a sa sb absent_a ha hb in
      let (b', eb, lb) = crossed-session xb yb xa ya a.public_key_hex b sb sa absent_b hb ha in
      (a', b', ea, eb, la, lb)
