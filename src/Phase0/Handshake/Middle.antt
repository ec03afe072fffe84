-- ===== src/Phase0/Handshake/Middle.antt =====
-- A handshake of phase0/handshake.py through a party that puts its own ephemeral key into the messages.
-- The signatures are over the nonces and not over the ephemeral keys.
use census_konantgit_sys_p2p.Prelude.{String, Option, ◌++◌, length, ◌≡◌, true, ap, ◌∙◌}
use census_konantgit_sys_p2p.Phase0.Handshake.{
  Agreement, IsAgreement, message, accepted, Greeted, server_hello, server_auth, client_hello,
  client_challenge, is_expected, derive_session_key,
}
use census_konantgit_sys_p2p.Phase0.Handshake.Honest.{
  handshake-carried, derive-key_of, key_of, session_of,
}
use census_konantgit_sys_p2p.Phase0.Identity.{Signatures, IsSigning, public_key_hex}
use census_konantgit_sys_p2p.Phase0.Hex.{Bytes, IsBytes, hex}
use census_konantgit_sys_p2p.Dict.{Dict, insert}

module _ {S X : Type 0} (ed : Signatures S) (dh : Agreement X) (signing : IsSigning ed)
    (agreement : IsAgreement dh) where
  -- A party without any signing key, in the way of a client and a server that follow the protocol, which puts the public key of an ephemeral key `m` of its own in place of theirs: both handshakes end with a session whose peer is the true other party, also where the client expects just this server, and each of the two session keys is the one that the party derives from `m` and the ephemeral public key that it took out of a message.
  pub handshake-middle :
      (a b : S) (x y m : X) (cn sn : Bytes) (expected : Option String)
      → IsBytes cn
      → length cn ≡ 32
      → IsBytes sn
      → length sn ≡ 32
      → is_expected expected (public_key_hex ed b) ≡ true
      → let (greeting, hello) = client_hello ed dh a x cn in
        let own = hex (dh.x_public m) in
        (g : Greeted X) × (challenge : Dict String) × (auth : Dict String) × (client_key : Bytes)
        × (server_key : Bytes) × (server_hello ed dh b y sn (message (insert "eph_pub" own hello))
            ≡ accepted (g, challenge))
        × (client_challenge ed dh a expected greeting (message (insert "eph_pub" own challenge))
            ≡ accepted (
              auth,
              accepted (session_of ed dh signing agreement client_key (public_key_hex ed b)),
            ))
        × (server_auth ed dh g (message auth)
            ≡ accepted (session_of ed dh signing agreement server_key (public_key_hex ed a)))
        × (derive_session_key ed dh m (hex (dh.x_public x)) cn sn ≡ accepted client_key)
        × (derive_session_key ed dh m (hex (dh.x_public y)) cn sn ≡ accepted server_key)
  handshake-middle a b x y m cn sn expected cn_bytes cn_size sn_bytes sn_size known =
      let (g, challenge, auth, greeted, client, server) =
        handshake-carried ed dh signing agreement a b x y m m cn sn expected cn_bytes cn_size
          sn_bytes sn_size known in
      let derive = derive-key_of ed dh signing agreement in
      let swap = λ (e : X). ap (λ s. accepted (dh.hkdf (cn ++ sn) s)) (agreement.shared_comm m e) in
      (
        g,
        challenge,
        auth,
        key_of ed dh signing agreement x m cn sn,
        key_of ed dh signing agreement y m cn sn,
        greeted,
        client,
        server,
        derive m x cn sn ∙ swap x,
        derive m y cn sn ∙ swap y,
      )
