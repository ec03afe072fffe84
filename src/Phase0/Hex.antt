-- ===== src/Phase0/Hex.antt =====
-- `bytes.hex` and `bytes.fromhex`, with which phase0/identity.py, phase0/handshake.py and relay/client.py
-- put bytes into JSON. Bytes are the list of their values.
use Prim.Native.Char.{Char, code}
use Prim.Native.String.{[] as []ᵗ, ◌∷◌ as ◌∷ᵗ◌, char_at}
use census_konantgit_sys_p2p.Prelude.{
  ◌∷◌, [], List, zero, suc, ℕ, String, Option, none, some, ◌≡◌, ◌/◌, if◌then◌else◌, ◌*◌, ◌<◌, Bool,
  All, ◌==◌, true, ◌%◌, false, arith, ◌+◌, leb, ◌||◌, ap, ◌&&◌, refl, ◌-◌, ◌∙◌,
}

abbrev pub Bytes : Type 0
Bytes = List ℕ

abbrev pub IsBytes : Bytes → Type 0
IsBytes = All (λ b. b < 256)

-- The digit of a number below 16.
unfoldable hex_digit : ℕ → Char
hex_digit n = char_at "0123456789abcdef" n

-- `b.hex()`
unfoldable pub hex : Bytes → String
unfolding hex_digit
hex [] = []ᵗ
hex (b ∷ bs) = hex_digit (b / 16) ∷ᵗ hex_digit (b % 16) ∷ᵗ hex bs

digit_at : ℕ → Option ℕ
digit_at n =
    if leb 48 n && leb n 57
    then some (n - 48)
    else if leb 97 n && leb n 102
    then some (n - 87)
    else if leb 65 n && leb n 70
    then some (n - 55)
    else none

unfoldable digit_value : Char → Option ℕ
unfolding digit_at
digit_value c = digit_at (code c)

is_space : Char → Bool
is_space c = code c == 32 || (leb 9 (code c) && leb (code c) 13)

unfoldable byte_of : Option ℕ → Option ℕ → Option Bytes → Option Bytes
byte_of (some h) (some l) (some bs) = some ((h * 16 + l) ∷ bs)
byte_of (some h) (some l) none = none
byte_of (some h) none rest = none
byte_of none l rest = none

-- `bytes.fromhex`: two digits for a byte, in either case, with spaces between bytes; `none` where it
-- raises `ValueError`.
unfoldable pub fromhex : String → Option Bytes
unfolding byte_of digit_value is_space
fromhex []ᵗ = some []
fromhex (c ∷ᵗ []ᵗ) = if is_space c then some [] else none
fromhex (c ∷ᵗ d ∷ᵗ s) = elim (is_space c) [
  | true ↦ fromhex (d ∷ᵗ s)
  | false ↦ byte_of (digit_value c) (digit_value d) (fromhex s)
]

digit_value-hex_digit :
    (n : ℕ) → n < 16 → (digit_value (hex_digit n) ≡ some n) × (is_space (hex_digit n) ≡ false)
unfolding digit_value digit_at hex_digit is_space
digit_value-hex_digit zero h = (refl, refl)
digit_value-hex_digit (suc zero) h = (refl, refl)
digit_value-hex_digit (suc (suc zero)) h = (refl, refl)
digit_value-hex_digit (suc (suc (suc zero))) h = (refl, refl)
digit_value-hex_digit (suc (suc (suc (suc zero)))) h = (refl, refl)
digit_value-hex_digit (suc (suc (suc (suc (suc zero))))) h = (refl, refl)
digit_value-hex_digit (suc (suc (suc (suc (suc (suc zero)))))) h = (refl, refl)
digit_value-hex_digit (suc (suc (suc (suc (suc (suc (suc zero))))))) h = (refl, refl)
digit_value-hex_digit (suc (suc (suc (suc (suc (suc (suc (suc zero)))))))) h = (refl, refl)
digit_value-hex_digit (suc (suc (suc (suc (suc (suc (suc (suc (suc zero))))))))) h = (refl, refl)
digit_value-hex_digit (suc (suc (suc (suc (suc (suc (suc (suc (suc (suc zero)))))))))) h =
    (refl, refl)
digit_value-hex_digit (suc (suc (suc (suc (suc (suc (suc (suc (suc (suc (suc zero))))))))))) h =
    (refl, refl)
digit_value-hex_digit (suc (suc (suc (suc (suc (suc (suc (suc (suc (suc (suc (suc zero))))))))))))
      h =
    (refl, refl)
digit_value-hex_digit
      (suc (suc (suc (suc (suc (suc (suc (suc (suc (suc (suc (suc (suc zero))))))))))))) h =
    (refl, refl)
digit_value-hex_digit
      (suc (suc (suc (suc (suc (suc (suc (suc (suc (suc (suc (suc (suc (suc zero)))))))))))))) h =
    (refl, refl)
digit_value-hex_digit
      (suc (suc (suc (suc (suc (suc (suc (suc (suc (suc (suc (suc (suc (suc (suc zero)))))))))))))))
      h =
    (refl, refl)
digit_value-hex_digit
      (suc
        (suc (suc (suc (suc (suc (suc (suc (suc (suc (suc (suc (suc (suc (suc (suc n))))))))))))))))
      h =
    absurd (omega arith)

fromhex_pair :
    (c d : Char) (s : String) (h l : ℕ) (bs : Bytes)
    → is_space c ≡ false
    → digit_value c ≡ some h
    → digit_value d ≡ some l
    → fromhex s ≡ some bs
    → fromhex (c ∷ᵗ d ∷ᵗ s) ≡ some ((h * 16 + l) ∷ bs)
unfolding byte_of fromhex
fromhex_pair c d s h l bs space high low rest = rw (space, high, low, rest, fromhex) refl

-- `bytes.fromhex(b.hex())` is `b`.
pub fromhex-hex : (bs : Bytes) → IsBytes bs → fromhex (hex bs) ≡ some bs
unfolding hex fromhex
fromhex-hex [] h = refl
fromhex-hex (b ∷ bs) h =
    let high = digit_value-hex_digit (b / 16) (omega (arith, h.0)) in
    let low = digit_value-hex_digit (b % 16) (omega arith) in
    fromhex_pair (hex_digit (b / 16)) (hex_digit (b % 16)) (hex bs) (b / 16) (b % 16) bs high.1
      high.0 low.0 (fromhex-hex bs h.1)
    ∙ ap (λ x. some (x ∷ bs)) (omega arith)
