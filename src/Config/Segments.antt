-- ===== src/Config/Segments.antt =====
-- Lemmas on splitConfigSegments and the append functions of internal/provider/qemu_vm_mapping.go.
use terraform_provider_proxm.Prelude.{
  ℕ, ◌≡◌, ◌≢◌, refl, Bool, true, false, ◌&&◌, ◌||◌, inl, inr, some, List, [], ◌∷◌, ◌++◌, map,
  append-nil, arith, leb, ◌==◌, All, All-append, Bool-cases,
}
use terraform_provider_proxm.Text.{
  Text, codes, text_eq, is_empty, is_space, trim_left, trim_space, join, IsTrimmed, Lacks,
}
use terraform_provider_proxm.Text.Trim.{
  trim_space_self, trim_left_solid, trim_right_solid, trim_right-append, trim_left_space,
  trim_right_nonempty, IsSolid, solid-IsTrimmed,
}
use terraform_provider_proxm.Int.{ℤ, IsInt64}
use terraform_provider_proxm.Text.Decimal.{
  format_int, format_int-ne-nil, format_int-IsTrimmed, format_int-Lacks-comma,
}
use terraform_provider_proxm.Text.Split.{split-join, cut-append}
use terraform_provider_proxm.Config.{
  IsPlain, IsName, Float64, append_string_config, append_bool_config, append_int64_config,
  append_float64_config, bool_to_form_value, parse_config_bool, split_config_segments,
  split_config_key_value, append_config, concat,
}
use terraform_provider_proxm.Value.{Value, null, unknown, known, Holds, Holds-map, IsDecided}

-- Option names are made of these.
abbrev is_key_char : ℕ → Bool
is_key_char c = (leb b'a' c && leb c b'z') || (leb b'0' c && leb c b'9') || c == b'_' || c == b'-'

abbrev all_key_chars : Text → Bool
all_key_chars [] = true
all_key_chars (c ∷ s) = is_key_char c && all_key_chars s

abbrev pub is_key : Text → Bool
is_key [] = false
is_key (c ∷ s) = is_key_char c && all_key_chars s

record IsKeyChar (c : ℕ) : Type 0 where
  solid : is_space c ≡ false
  no_comma : c ≢ b','
  no_equals : c ≢ b'='

is_key_char-IsKeyChar : (c : ℕ) → is_key_char c ≡ true → IsKeyChar c
unfolding is_space
is_key_char-IsKeyChar c h = ground arith

and_left : (b d : Bool) → (b && d) ≡ true → b ≡ true
and_left b d e = ground arith

and_right : (b d : Bool) → (b && d) ≡ true → d ≡ true
and_right b d e = ground arith

all_key_chars-IsKeyChar : (s : Text) → all_key_chars s ≡ true → All IsKeyChar s
all_key_chars-IsKeyChar [] h = tt
all_key_chars-IsKeyChar (c ∷ s) h = (
  is_key_char-IsKeyChar c (and_left (is_key_char c) _ h),
  all_key_chars-IsKeyChar s (and_right (is_key_char c) _ h),
)

is_key-IsKeyChar : (k : Text) → is_key k ≡ true → All IsKeyChar k
is_key-IsKeyChar [] h = tt
is_key-IsKeyChar (c ∷ k) h = all_key_chars-IsKeyChar (c ∷ k) h

All-IsSolid : (s : Text) → All IsKeyChar s → All IsSolid s
All-IsSolid [] h = tt
All-IsSolid (c ∷ s) (hc, hs) = (hc.solid, All-IsSolid s hs)

All-no_comma : (s : Text) → All IsKeyChar s → Lacks b',' s
All-no_comma [] h = tt
All-no_comma (c ∷ s) (hc, hs) = (hc.no_comma, All-no_comma s hs)

All-no_equals : (s : Text) → All IsKeyChar s → Lacks b'=' s
All-no_equals [] h = tt
All-no_equals (c ∷ s) (hc, hs) = (hc.no_equals, All-no_equals s hs)

trim_left-key : (k s : Text) → is_key k ≡ true → trim_left (k ++ s) ≡ k ++ s
trim_left-key [] s h = cc
trim_left-key (c ∷ k) s h = trim_left_solid c (k ++ s) (is_key-IsKeyChar (c ∷ k) h).0.solid

key_trimmed : (k : Text) → is_key k ≡ true → trim_space k ≡ k
key_trimmed k h = trim_space_self k (solid-IsTrimmed k (All-IsSolid k (is_key-IsKeyChar k h)))

-- The segment of an option: its parts are found again.
pub split_config_key_value-option :
    (k v : Text)
    → is_key k ≡ true
    → IsTrimmed v
    → split_config_key_value (k ++ (b'=' ∷ v)) ≡ some (k, v)
unfolding split_config_key_value
split_config_key_value-option k v h t = rw (
  cut-append k v b'=' (All-no_equals k (is_key-IsKeyChar k h)),
  key_trimmed k h,
  trim_space_self v t,
)

pub option-IsPlain : (k v : Text) → is_key k ≡ true → IsPlain v → IsPlain (k ++ (b'=' ∷ v))
option-IsPlain k v h p = record {
  trimmed = record {
    left = trim_left-key k (b'=' ∷ v) h;
    right =
        trim_right-append k (b'=' ∷ v) (λ e. cc)
          (trim_right_solid b'=' v (unfold is_space in refl) p.trimmed.right);
  };
  no_comma =
      All-append _ k (b'=' ∷ v) (All-no_comma k (is_key-IsKeyChar k h)) ((omega arith), p.no_comma);
}

pub append_config-IsPlain {ℓ} :
    {A : Type ℓ} (format : A → Text) (k : Text) (a : Value A)
    → is_key k ≡ true
    → Holds (λ x. IsPlain (format x)) a
    → All IsPlain (append_config format k a)
append_config-IsPlain format k null h p = tt
append_config-IsPlain format k unknown h p = tt
append_config-IsPlain format k (known a) h p = (option-IsPlain k (format a) h p, tt)

pub All-concat : (xss : List (List Text)) → All (All IsPlain) xss → All IsPlain (concat xss)
All-concat [] h = tt
All-concat (xs ∷ xss) (hx, hs) = All-append IsPlain xs (concat xss) hx (All-concat xss hs)

map-trim_space : (segs : List Text) → All IsPlain segs → map trim_space segs ≡ segs
map-trim_space [] h = refl
map-trim_space (s ∷ segs) (p, ps) = rw (trim_space_self s p.trimmed, map-trim_space segs ps)

All-Lacks-comma : (segs : List Text) → All IsPlain segs → All (Lacks b',') segs
All-Lacks-comma [] h = tt
All-Lacks-comma (s ∷ segs) (p, ps) = (p.no_comma, All-Lacks-comma segs ps)

-- Splitting what join wrote gives the segments back, if there is one and each is plain.
pub split_config_segments-join :
    (segs : List Text)
    → segs ≢ []
    → All IsPlain segs
    → split_config_segments (join segs b',') ≡ segs
unfolding split_config_segments
split_config_segments-join segs ne h =
    rw (split-join segs b',' ne (All-Lacks-comma segs h)) (map-trim_space segs h)

-- Trimming keeps a text that begins with a trimmed, nonempty one from being blank.
trim_space-ne-nil : (p s : Text) → p ≢ [] → trim_left p ≡ p → is_empty (trim_space (p ++ s)) ≡ false
trim_space-ne-nil [] s ne h = absurd (ne refl)
trim_space-ne-nil (c ∷ p) s ne h = elim (Bool-cases (is_space c)) [
  | inl space ↦ absurd (trim_left_space c p space h)
  | inr solid ↦
      unfold trim_space in
      rw (trim_left_solid c (p ++ s) solid) (trim_right_nonempty c (p ++ s) solid)
]

pub join_nonblank :
    (p : Text) (segs : List Text)
    → p ≢ []
    → trim_left p ≡ p
    → is_empty (trim_space (join (p ∷ segs) b',')) ≡ false
unfolding join
join_nonblank p [] ne h = rw append-nil at (trim_space-ne-nil p [] ne h)
join_nonblank p (q ∷ segs) ne h = trim_space-ne-nil p _ ne h

pub bool_to_form_value-IsPlain : (b : Bool) → IsPlain (bool_to_form_value b)
bool_to_form_value-IsPlain true = record {
  trimmed = solid-IsTrimmed _ (unfold is_space in (refl, tt));
  no_comma = omega arith;
}
bool_to_form_value-IsPlain false = record {
  trimmed = solid-IsTrimmed _ (unfold is_space in (refl, tt));
  no_comma = omega arith;
}

-- The two words that the encoders write for a Boolean are read back.
pub parse_config_bool-form_value : (b : Bool) → parse_config_bool (bool_to_form_value b) ≡ some b
unfolding parse_config_bool
parse_config_bool-form_value true = refl
parse_config_bool-form_value false = refl

pub format_int-IsPlain : (z : ℤ) → IsPlain (format_int z)
format_int-IsPlain z = record {
  trimmed = format_int-IsTrimmed z;
  no_comma = format_int-Lacks-comma z;
}

pub string_config-IsPlain :
    (k : Text) (a : Value Text)
    → is_key k ≡ true
    → Holds IsPlain a
    → All IsPlain (append_string_config k a)
string_config-IsPlain k a key h = append_config-IsPlain (λ s. s) k a key h

pub bool_config-IsPlain :
    (k : Text) (a : Value Bool)
    → is_key k ≡ true
    → IsDecided a
    → All IsPlain (append_bool_config k a)
bool_config-IsPlain k a key h =
    append_config-IsPlain bool_to_form_value k a key
      (Holds-map (λ b _. bool_to_form_value-IsPlain b) a h)

pub int64_config-IsPlain :
    (k : Text) (a : Value ℤ)
    → is_key k ≡ true
    → Holds IsInt64 a
    → All IsPlain (append_int64_config k a)
int64_config-IsPlain k a key h =
    append_config-IsPlain format_int k a key (Holds-map (λ n _. format_int-IsPlain n) a h)

pub float64_config-IsPlain :
    (F : Float64) (k : Text) (a : Value F.Float)
    → is_key k ≡ true
    → IsDecided a
    → All IsPlain (append_float64_config F k a)
float64_config-IsPlain F k a key h =
    append_config-IsPlain F.format_float k a key (Holds-map (λ x _. F.format-IsPlain x) a h)

pub flag-form_value : (b : Bool) → text_eq (bool_to_form_value b) (codes "1") ≡ b
flag-form_value true = refl
flag-form_value false = refl

pub IsName-nonblank : (v : Text) → IsName v → is_empty (trim_space v) ≡ false
IsName-nonblank [] h = absurd (h.nonempty refl)
IsName-nonblank (c ∷ v) h = rw (trim_space_self (c ∷ v) h.plain.trimmed)

pub All-IsName : (segs : List Text) → All IsName segs → All IsPlain segs
All-IsName [] h = tt
All-IsName (s ∷ segs) (n, ns) = (n.plain, All-IsName segs ns)

-- The segments of options are not empty.
pub append_config-IsName {ℓ} :
    {A : Type ℓ} (format : A → Text) (k : Text) (a : Value A)
    → is_key k ≡ true
    → All IsPlain (append_config format k a)
    → All IsName (append_config format k a)
append_config-IsName format k null h p = tt
append_config-IsName format k unknown h p = tt
append_config-IsName format [] (known a) h p = cc
append_config-IsName format (c ∷ k) (known a) h p = (record { nonempty = λ e. cc; plain = p.0 }, tt)

pub All-concat_name : (xss : List (List Text)) → All (All IsName) xss → All IsName (concat xss)
All-concat_name [] h = tt
All-concat_name (xs ∷ xss) (hx, hs) = All-append IsName xs (concat xss) hx (All-concat_name xss hs)

pub name_config-IsPlain :
    (k : Text) (a : Value Text)
    → is_key k ≡ true
    → Holds IsName a
    → All IsPlain (append_string_config k a)
name_config-IsPlain k a key h = string_config-IsPlain k a key (Holds-map (λ v p. p.plain) a h)

pub format_int-nonblank : (z : ℤ) → is_empty (trim_space (format_int z)) ≡ false
format_int-nonblank z =
    IsName-nonblank (format_int z)
      (record { nonempty = format_int-ne-nil z; plain = format_int-IsPlain z })

pub is_key-no_equals : (k : Text) → is_key k ≡ true → Lacks b'=' k
is_key-no_equals k h = All-no_equals k (is_key-IsKeyChar k h)

pub is_key-IsName : (k : Text) → is_key k ≡ true → IsName k
is_key-IsName [] h = cc
is_key-IsName (c ∷ k) h = record {
  nonempty = λ e. cc;
  plain = record {
    trimmed = solid-IsTrimmed (c ∷ k) (All-IsSolid (c ∷ k) (is_key-IsKeyChar (c ∷ k) h));
    no_comma = All-no_comma (c ∷ k) (is_key-IsKeyChar (c ∷ k) h);
  };
}
