-- ===== src/Text/Trim.antt =====
-- Lemmas on strings.TrimSpace.
use terraform_provider_proxm.Prelude.{
  ℕ, ◌≤◌, ◌≡◌, ◌≢◌, refl, ap, ◌∙◌, true, false, [], ◌∷◌, ◌++◌, All, arith, length,
}
use terraform_provider_proxm.Text.{
  Text, is_empty, is_space, trim_left, trim_right, keep, trim_space, IsTrimmed,
}

pub trim_space_self : (s : Text) → IsTrimmed s → trim_space s ≡ s
trim_space_self s h = unfold trim_space in (ap trim_right h.left ∙ h.right)

keep-solid : (c : ℕ) (s : Text) → is_space c ≡ false → keep c s ≡ c ∷ s
unfolding keep
keep-solid c [] h = rw h
keep-solid c (d ∷ s) h = refl

keep-ne-nil : (c : ℕ) (s : Text) → s ≢ [] → keep c s ≡ c ∷ s
unfolding keep
keep-ne-nil c [] h = absurd (h refl)
keep-ne-nil c (d ∷ s) h = refl

pub trim_left_solid : (c : ℕ) (s : Text) → is_space c ≡ false → trim_left (c ∷ s) ≡ c ∷ s
unfolding trim_left
trim_left_solid c s h = rw h

pub trim_right_solid :
    (c : ℕ) (s : Text) → is_space c ≡ false → trim_right s ≡ s → trim_right (c ∷ s) ≡ c ∷ s
unfolding trim_right
trim_right_solid c s h e = rw e (keep-solid c s h)

pub trim_right-append : (a s : Text) → s ≢ [] → trim_right s ≡ s → trim_right (a ++ s) ≡ a ++ s
unfolding trim_right
trim_right-append [] s ne e = e
trim_right-append (c ∷ a) s ne e =
    rw (trim_right-append a s ne e) (keep-ne-nil c (a ++ s) (append-ne-nil a s ne))
  where
    append-ne-nil : (b t : Text) → t ≢ [] → b ++ t ≢ []
    append-ne-nil [] t h = h
    append-ne-nil (x ∷ b) t h = λ e'. cc

abbrev pub IsSolid : ℕ → Type 0
IsSolid c = is_space c ≡ false

pub trim_right_of_solid : (s : Text) → All IsSolid s → trim_right s ≡ s
unfolding trim_right
trim_right_of_solid [] h = refl
trim_right_of_solid (c ∷ s) (hc, hs) = rw (trim_right_of_solid s hs) (keep-solid c s hc)

-- A text with no space in it is trimmed.
pub solid-IsTrimmed : (s : Text) → All IsSolid s → IsTrimmed s
unfolding trim_left
solid-IsTrimmed [] h = record { left = refl; right = unfold trim_right in refl }
solid-IsTrimmed (c ∷ s) (hc, hs) = record {
  left = trim_left_solid c s hc;
  right = trim_right_of_solid (c ∷ s) (hc, hs);
}

-- A text that begins with a space is longer than what trimming leaves of it.
trim_left_shorter : (s : Text) → length (trim_left s) ≤ length s
unfolding trim_left
trim_left_shorter [] = omega arith
trim_left_shorter (c ∷ s) = ground (arith, trim_left_shorter s)

pub trim_left_space : (c : ℕ) (s : Text) → is_space c ≡ true → trim_left (c ∷ s) ≢ c ∷ s
unfolding trim_left
trim_left_space c s h e = absurd (omega (arith, trim_left_shorter s, ap length (rw h at e)))

pub trim_right_nonempty :
    (c : ℕ) (s : Text) → is_space c ≡ false → is_empty (trim_right (c ∷ s)) ≡ false
unfolding trim_right
trim_right_nonempty c s h = rw (keep-solid c (trim_right s) h)
