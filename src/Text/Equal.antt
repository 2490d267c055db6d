-- ===== src/Text/Equal.antt =====
-- Lemmas on the Boolean equality of texts.
use terraform_provider_proxm.Prelude.{
  ◌≡◌, ◌≢◌, refl, Bool, true, false, [], ◌∷◌, arith, ==_self, ◌&&◌,
}
use terraform_provider_proxm.Text.{Text, text_eq, is_trimmed, trim_left, trim_right, IsTrimmed}

pub text_eq→eq : (s t : Text) → text_eq s t ≡ true → s ≡ t
text_eq→eq [] [] h = refl
text_eq→eq [] (y ∷ t) h = cc
text_eq→eq (x ∷ s) [] h = cc
text_eq→eq (x ∷ s) (y ∷ t) h = ground (arith, text_eq→eq s t)

pub text_eq_self : (s : Text) → text_eq s s ≡ true
text_eq_self [] = refl
text_eq_self (x ∷ s) = rw (==_self x, text_eq_self s)

pub text_eq-false : (s t : Text) → s ≢ t → text_eq s t ≡ false
text_eq-false s t h = decide (text_eq s t) refl
  where
    decide : (b : Bool) → text_eq s t ≡ b → text_eq s t ≡ false
    decide true e = absurd (h (text_eq→eq s t e))
    decide false e = e

pub is_trimmed-IsTrimmed : (s : Text) → is_trimmed s ≡ true → IsTrimmed s
unfolding is_trimmed
is_trimmed-IsTrimmed s h =
    let (left, right) = both (text_eq (trim_left s) s) (text_eq (trim_right s) s) h in
    record { left = text_eq→eq (trim_left s) s left; right = text_eq→eq (trim_right s) s right }
  where
    both : (a b : Bool) → (a && b) ≡ true → (a ≡ true) × (b ≡ true)
    both true b h = (refl, h)
    both false b h = cc
