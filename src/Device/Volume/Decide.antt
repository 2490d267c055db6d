-- ===== src/Device/Volume/Decide.antt =====
-- Tests of what a text must satisfy to stand in a property string.
use terraform_provider_proxm.Prelude.{
  ℕ, ◌≡◌, ◌≢◌, refl, Bool, true, false, ◌&&◌, not, [], ◌∷◌, ◌==◌, ==_self,
}
use terraform_provider_proxm.Text.{Text, is_empty, is_trimmed, Lacks}
use terraform_provider_proxm.Text.Equal.{is_trimmed-IsTrimmed}
use terraform_provider_proxm.Config.{IsPlain, IsName}
use terraform_provider_proxm.Device.Volume.{IsVolume}

abbrev lacks : ℕ → Text → Bool
lacks b [] = true
lacks b (c ∷ s) = not (c == b) && lacks b s

abbrev pub is_plain : Text → Bool
is_plain s = is_trimmed s && lacks b',' s

both : (a b : Bool) → (a && b) ≡ true → (a ≡ true) × (b ≡ true)
both true b h = (refl, h)
both false b h = cc

lacks-Lacks : (b : ℕ) (s : Text) → lacks b s ≡ true → Lacks b s
lacks-Lacks b [] h = tt
lacks-Lacks b (c ∷ s) h =
    let (differs, rest) = both (not (c == b)) (lacks b s) h in
    ((λ same. cc (rw (same, ==_self b) at differs)), lacks-Lacks b s rest)

pub is_plain-IsPlain : (s : Text) → is_plain s ≡ true → IsPlain s
is_plain-IsPlain s h =
    let (trimmed, free) = both (is_trimmed s) (lacks b',' s) h in
    record { trimmed = is_trimmed-IsTrimmed s trimmed; no_comma = lacks-Lacks b',' s free }

some_text : (s : Text) → not (is_empty s) ≡ true → s ≢ []
some_text [] h = cc
some_text (c ∷ s) h = λ e. cc

abbrev pub is_name : Text → Bool
is_name s = not (is_empty s) && is_plain s

pub is_name-IsName : (s : Text) → is_name s ≡ true → IsName s
is_name-IsName s h =
    let (full, rest) = both (not (is_empty s)) (is_plain s) h in
    record { nonempty = some_text s full; plain = is_plain-IsPlain s rest }

abbrev pub is_volume : Text → Bool
is_volume s = lacks b'=' s && is_name s

pub is_volume-IsVolume : (s : Text) → is_volume s ≡ true → IsVolume s
is_volume-IsVolume s h =
    let (free, name) = both (lacks b'=' s) (is_name s) h in
    let n = is_name-IsName s name in
    record { nonempty = n.nonempty; plain = n.plain; no_equals = lacks-Lacks b'=' s free }
