-- ===== src/Tests/Keys.antt =====
-- Toy keys, signatures and a cipher that have the laws of the interfaces of Phase0/Identity, Phase0/Session
-- and Phase0/Handshake.
use census_konantgit_sys_p2p.Prelude.{
  ◌∷◌, [], zero, suc, ℕ, ◌≡◌, ◌<◌, ◌+◌, ◌==◌, Bool, true, false, some, refl, arith, ap, length, ◌∙◌,
}
use census_konantgit_sys_p2p.Phase0.Hex.{Bytes, IsBytes}
use census_konantgit_sys_p2p.Phase0.Identity.{Signatures, IsSigning}
use census_konantgit_sys_p2p.Phase0.Handshake.{Agreement, IsAgreement}
use census_konantgit_sys_p2p.Phase0.Session.{Cipher, IsCipher}

abbrev pub repeated : ℕ → ℕ → Bytes
repeated zero b = []
repeated (suc n) b = b ∷ repeated n b

pub repeated-IsBytes : (n b : ℕ) → b < 256 → IsBytes (repeated n b)
repeated-IsBytes zero b h = tt
repeated-IsBytes (suc n) b h = (h, repeated-IsBytes n b h)

length-repeated : (n b : ℕ) → length (repeated n b) ≡ n
length-repeated zero b = refl
length-repeated (suc n) b = ap suc (length-repeated n b)

abbrev pub first : Bytes → ℕ
first [] = 0
first (b ∷ _) = b

-- The two parties have the keys 1 and 2.
abbrev pub byte : Bool → ℕ
byte true = 1
byte false = 2

byte-small : (k : Bool) → byte k < 256
byte-small true = omega arith
byte-small false = omega arith

byte_same : (k : Bool) → (byte k == byte k) ≡ true
byte_same true = refl
byte_same false = refl

abbrev pub ed : Signatures Bool
ed = record {
  public_bytes = λ k. repeated 32 (byte k);
  sign = λ k m. repeated 64 (byte k);
  is_public = λ b. true;
  verify = λ raw sig m. first raw == first sig;
}

pub signing : IsSigning ed
signing = record {
  public_IsBytes = λ k. repeated-IsBytes 32 (byte k) (byte-small k);
  public_length = λ k. length-repeated 32 (byte k);
  public_taken = λ k. refl;
  sign_IsBytes = λ k m. repeated-IsBytes 64 (byte k) (byte-small k);
  sign_length = λ k m. length-repeated 64 (byte k);
  verify-sign = λ k m. byte_same k;
}

abbrev pub dh : Agreement Bool
dh = record {
  x_public = λ x. repeated 32 (byte x);
  exchange = λ x raw. some (repeated 32 (byte x + first raw));
  hkdf = λ salt secret. repeated 32 (first secret);
}

pub agreement : IsAgreement dh
agreement = record {
  x_public_IsBytes = λ k. repeated-IsBytes 32 (byte k) (byte-small k);
  x_public_length = λ k. length-repeated 32 (byte k);
  shared = λ a b. repeated 32 (byte a + byte b);
  exchange_own = λ a b. refl;
  shared_comm = λ a b. ap (repeated 32) (omega arith);
  hkdf_length = λ salt secret. length-repeated 32 (first secret);
}

-- Every number is written as so many ones and a zero.
abbrev pub ones_then : ℕ → Bytes → Bytes
ones_then zero bs = 0 ∷ bs
ones_then (suc n) bs = 1 ∷ ones_then n bs

abbrev pub in_ones : Bytes → Bytes
in_ones [] = []
in_ones (n ∷ ns) = ones_then n (in_ones ns)

abbrev pub from_ones : ℕ → Bytes → Bytes
from_ones n [] = []
from_ones n (zero ∷ bs) = n ∷ from_ones 0 bs
from_ones n (suc _ ∷ bs) = from_ones (suc n) bs

from_ones-ones_then :
    (m n : ℕ) (bs : Bytes) → from_ones m (ones_then n bs) ≡ (m + n) ∷ from_ones 0 bs
from_ones-ones_then m zero bs = ap (λ x. x ∷ from_ones 0 bs) (omega arith)
from_ones-ones_then m (suc n) bs =
    from_ones-ones_then (suc m) n bs ∙ ap (λ x. x ∷ from_ones 0 bs) (omega arith)

from_ones-in_ones : (bs : Bytes) → from_ones 0 (in_ones bs) ≡ bs
from_ones-in_ones [] = refl
from_ones-in_ones (n ∷ ns) =
    from_ones-ones_then 0 n (in_ones ns)
    ∙ ap (λ x. x ∷ from_ones 0 (in_ones ns)) (omega arith)
    ∙ ap (λ x. n ∷ x) (from_ones-in_ones ns)

ones_then-IsBytes : (n : ℕ) (bs : Bytes) → IsBytes bs → IsBytes (ones_then n bs)
ones_then-IsBytes zero bs h = (omega arith, h)
ones_then-IsBytes (suc n) bs h = (omega arith, ones_then-IsBytes n bs h)

in_ones-IsBytes : (bs : Bytes) → IsBytes (in_ones bs)
in_ones-IsBytes [] = tt
in_ones-IsBytes (n ∷ ns) = ones_then-IsBytes n (in_ones ns) (in_ones-IsBytes ns)

abbrev pub cipher : Cipher
cipher = record {
  encrypt = λ key nonce plaintext. in_ones plaintext;
  decrypt = λ key nonce ciphertext. some (from_ones 0 ciphertext);
}

pub ciphering : IsCipher cipher
ciphering = record {
  decrypt-encrypt = λ key nonce plaintext. ap some (from_ones-in_ones plaintext);
  encrypt_IsBytes = λ key nonce plaintext. in_ones-IsBytes plaintext;
}
