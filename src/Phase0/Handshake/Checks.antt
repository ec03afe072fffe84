-- ===== src/Phase0/Handshake/Checks.antt =====
-- What it takes for a part of a handshake to be accepted.
use census_konantgit_sys_p2p.Prelude.{
  ◌∷◌, [], suc, ℕ, Bool, ◌≡◌, length, true, refl, false, arith, str_eq-false,
}
use census_konantgit_sys_p2p.Phase0.Handshake.{
  Checked, accepted, refused, failed, ◌>>=◌, check, is_empty, is_empty_text,
}
use census_konantgit_sys_p2p.Phase0.Hex.{Bytes, hex}

pub >>=-accepted {ℓ κ} :
    {A : Type ℓ} {B : Type κ} (m : Checked A) (f : A → Checked B) (b : B)
    → (m >>= f) ≡ accepted b
    → (a : A) × (m ≡ accepted a) × (f a ≡ accepted b)
>>=-accepted (accepted a) f b h = (a, refl, h)
>>=-accepted refused f b h = absurd (cc)
>>=-accepted (failed e) f b h = absurd (cc)

pub check-accepted : (b : Bool) → check b ≡ accepted tt → b ≡ true
unfolding check
check-accepted true h = refl
check-accepted false h = absurd (cc)

pub is_empty_text-hex : (bs : Bytes) (n : ℕ) → length bs ≡ suc n → is_empty_text (hex bs) ≡ false
unfolding is_empty_text hex
is_empty_text-hex [] n h = absurd (omega (arith, h))
is_empty_text-hex (b ∷ bs) n h = str_eq-false _ _ (λ e. cc)

pub is_empty-length : (bs : Bytes) (n : ℕ) → length bs ≡ suc n → is_empty bs ≡ false
unfolding is_empty
is_empty-length [] n h = absurd (omega (arith, h))
is_empty-length (b ∷ bs) n h = refl
