-- ===== src/Phase0/Identity/Signed.antt =====
-- Signing and verifying a message of phase0/identity.py, and what a good signature says of its sender.
use census_konantgit_sys_p2p.Prelude.{ℕ, String, Option, some, ◌≡◌, true, refl}
use census_konantgit_sys_p2p.Phase0.Identity.{
  Signatures, IsSigning, Message, Fields, sign_message, verify, signed_fields, public_key_hex, did,
  sign, verify_bytes,
}
use census_konantgit_sys_p2p.Phase0.Hex.{Bytes, fromhex-hex}
use census_konantgit_sys_p2p.Outcome.{returned}

module _ {S : Type 0} (ed : Signatures S) (laws : IsSigning ed) {B : Type 0}
    (canonical : Fields B → Bytes) where
  verify-signed :
      (k : S) (m : Message B)
      → m.pubkey ≡ some (public_key_hex ed k)
      → m.signature ≡ some (sign ed k (canonical (signed_fields m)))
      → verify ed canonical m ≡ true
  unfolding verify public_key_hex sign verify_bytes
  verify-signed k m p s =
      let content = canonical (signed_fields m) in
      let key = fromhex-hex (ed.public_bytes k) (laws.public_IsBytes k) in
      let sig = fromhex-hex (ed.sign k content) (laws.sign_IsBytes k content) in
      rw (p, s, key, sig, laws.public_taken k, laws.verify-sign k content) refl

  -- A message with a topic and a payload that an identity has signed is verified, and it says that it is from that identity.
  verify-sign_message :
      (k : S) (now : ℕ) (topic : String) (payload : B) (m : Message B)
      → m.topic ≡ some topic
      → m.payload ≡ some payload
      → let signed = sign_message ed canonical k now m in
        (signed.0 ≡ returned tt)
        × (verify ed canonical signed.1 ≡ true)
        × (signed.1.from ≡ some (did ed k))
  unfolding sign_message
  verify-sign_message k now topic payload m t p =
      rw (t, p) (refl, verify-signed k _ refl refl, refl)

  -- A message that an identity signs under the sender's name of its choice, with its own public key in it, is verified as well, whatever the name: `verify` does not compare `from` with the public key.
  verify_any_sender :
      (k : S) (claimed : Option String) (m : Message B)
      → let named = record m { from = claimed } in
        let forged = record named {
          pubkey = some (public_key_hex ed k);
          signature = some (sign ed k (canonical (signed_fields named)));
        } in
        (verify ed canonical forged ≡ true) × (forged.from ≡ claimed)
  verify_any_sender k claimed m = (verify-signed k _ refl refl, refl)
