-- ===== src/Config/Steps.antt =====
-- Lemmas on the parsing loop that the device parsers of internal/provider/qemu_vm_mapping.go share,
-- one option at a time.
use terraform_provider_proxm.Prelude.{
  ℕ, suc, ◌≡◌, ◌≢◌, refl, Bool, true, false, Option, some, List, [], ◌∷◌, ◌++◌, All, ◌>>=◌,
}
use terraform_provider_proxm.Int.{ℤ, IsInt64}
use terraform_provider_proxm.Text.{Text, codes, text_eq, is_empty, trim_space, join, Lacks}
use terraform_provider_proxm.Text.Split.{cut-Lacks}
use terraform_provider_proxm.Text.Decimal.{format_int, parse_int, parse_int-format_int}
use terraform_provider_proxm.Config.{
  IsPlain, IsName, Float64, append_config, append_string_config, append_bool_config,
  append_int64_config, append_float64_config, bool_to_form_value, parse_config_bool,
  split_config_key_value, parse_segment, parse_segments, parse_config,
}
use terraform_provider_proxm.Config.Segments.{
  is_key, split_config_key_value-option, split_config_segments-join, join_nonblank, flag-form_value,
  IsName-nonblank, All-IsName, format_int-nonblank, bool_to_form_value-IsPlain,
  parse_config_bool-form_value, format_int-IsPlain,
}
use terraform_provider_proxm.Value.{Value, null, unknown, known, Holds, Holds-map, IsDecided}

module _ {S : Type 0} (positional : ℕ → Text → S → Option S)
    (option : Text → Text → S → Option S) where
  -- The segment of a known value is read by `option`, a null value has no segment.
  pub read_option {ℓ} :
      {A : Type ℓ} (format : A → Text) (k : Text) (a : Value A) (set : Value A → S)
      (rest : List Text) {r : Option S}
      → is_key k ≡ true
      → Holds (λ x. IsPlain (format x)) a
      → Holds (λ x. option k (format x) (set null) ≡ some (set (known x))) a
      → ((j : ℕ) → parse_segments positional option j rest (set a) ≡ r)
      → (i : ℕ)
      → parse_segments positional option i (append_config format k a ++ rest) (set null) ≡ r
  read_option format k null set rest key plain reads next i = next i
  read_option format k unknown set rest key plain reads next i = absurd plain
  read_option format k (known a) set rest key plain reads next i =
      unfold parse_segments parse_segment in
      rw (split_config_key_value-option k (format a) key plain.trimmed, reads) (next (suc i))

  pub parse_config-join :
      (finish : S → Bool) (start : S) (p : Text) (segs : List Text) {item : S}
      → p ≢ []
      → IsPlain p
      → All IsPlain segs
      → parse_segments positional option 0 (p ∷ segs) start ≡ some item
      → finish item ≡ true
      → parse_config positional option finish start (join (p ∷ segs) b',') ≡ some item
  unfolding parse_config
  parse_config-join finish start p segs ne plain plains loop done = rw (
    join_nonblank p segs ne plain.trimmed.left,
    split_config_segments-join (p ∷ segs) (λ e. cc) (plain, plains),
    loop,
    done,
  )

  pub read_string :
      (k : Text) (a : Value Text) (set : Value Text → S) (rest : List Text) {r : Option S}
      → is_key k ≡ true
      → Holds IsPlain a
      → ((v : Text) → option k v (set null) ≡ some (set (known v)))
      → ((j : ℕ) → parse_segments positional option j rest (set a) ≡ r)
      → (i : ℕ)
      → parse_segments positional option i (append_string_config k a ++ rest) (set null) ≡ r
  read_string k a set rest key plain reads =
      read_option (λ s. s) k a set rest key plain (Holds-map (λ v _. reads v) a plain)

  pub read_bool :
      (k : Text) (a : Value Bool) (set : Value Bool → S) (rest : List Text) {r : Option S}
      → is_key k ≡ true
      → IsDecided a
      → ((v : Text) → option k v (set null) ≡ (parse_config_bool v >>= λ b. some (set (known b))))
      → ((j : ℕ) → parse_segments positional option j rest (set a) ≡ r)
      → (i : ℕ) → parse_segments positional option i (append_bool_config k a ++ rest) (set null) ≡ r
  read_bool k a set rest key decided reads =
      read_option bool_to_form_value k a set rest key
        (Holds-map (λ b _. bool_to_form_value-IsPlain b) a decided)
        (Holds-map {Q = λ x. option k (bool_to_form_value x) (set null) ≡ some (set (known x))}
          (λ x _. rw (reads (bool_to_form_value x), parse_config_bool-form_value x)) a decided)

  pub read_int64 :
      (k : Text) (a : Value ℤ) (set : Value ℤ → S) (rest : List Text) {r : Option S}
      → is_key k ≡ true
      → Holds IsInt64 a
      → ((v : Text) → option k v (set null) ≡ (parse_int v >>= λ n. some (set (known n))))
      → ((j : ℕ) → parse_segments positional option j rest (set a) ≡ r)
      → (i : ℕ)
      → parse_segments positional option i (append_int64_config k a ++ rest) (set null) ≡ r
  read_int64 k a set rest key decided reads =
      read_option format_int k a set rest key (Holds-map (λ n _. format_int-IsPlain n) a decided) (
        Holds-map {Q = λ x. option k (format_int x) (set null) ≡ some (set (known x))}
          (λ x fits. rw (reads (format_int x), parse_int-format_int x fits)) a decided)

  pub read_float64 :
      (F : Float64) (k : Text) (a : Value F.Float) (set : Value F.Float → S) (rest : List Text)
      {r : Option S}
      → is_key k ≡ true
      → IsDecided a
      → ((v : Text) → option k v (set null) ≡ (F.parse_float v >>= λ n. some (set (known n))))
      → ((j : ℕ) → parse_segments positional option j rest (set a) ≡ r)
      → (i : ℕ)
      → parse_segments positional option i (append_float64_config F k a ++ rest) (set null) ≡ r
  read_float64 F k a set rest key decided reads =
      read_option F.format_float k a set rest key (Holds-map (λ x _. F.format-IsPlain x) a decided)
        (Holds-map {Q = λ x. option k (F.format_float x) (set null) ≡ some (set (known x))}
          (λ x _. rw (reads (F.format_float x), F.parse-format x)) a decided)

  -- The first segment, without `=`.
  pub read_positional :
      (i : ℕ) (p : Text) (item : S) (rest : List Text)
      → Lacks b'=' p
      → parse_segments positional option i (p ∷ rest) item
        ≡ (positional i p item >>= parse_segments positional option (suc i) rest)
  unfolding parse_segments parse_segment split_config_key_value
  read_positional i p item rest h = rw (cut-Lacks p b'=' h)

  -- A Boolean that is true just if it is written `1`.
  pub read_flag :
      (k : Text) (a : Value Bool) (set : Value Bool → S) (rest : List Text) {r : Option S}
      → is_key k ≡ true
      → IsDecided a
      → ((v : Text) → option k v (set null) ≡ some (set (known (text_eq v (codes "1")))))
      → ((j : ℕ) → parse_segments positional option j rest (set a) ≡ r)
      → (i : ℕ) → parse_segments positional option i (append_bool_config k a ++ rest) (set null) ≡ r
  read_flag k a set rest key decided reads =
      read_option bool_to_form_value k a set rest key
        (Holds-map (λ b _. bool_to_form_value-IsPlain b) a decided)
        (Holds-map {Q = λ x. option k (bool_to_form_value x) (set null) ≡ some (set (known x))}
          (λ x _. rw (reads (bool_to_form_value x), flag-form_value x)) a decided)

  -- A text that may not be blank.
  pub read_nonblank :
      (k : Text) (a : Value Text) (set : Value Text → S) (rest : List Text) {r : Option S}
      → is_key k ≡ true
      → Holds IsName a
      → ((v : Text)
          → is_empty (trim_space v) ≡ false
          → option k v (set null) ≡ some (set (known v)))
      → ((j : ℕ) → parse_segments positional option j rest (set a) ≡ r)
      → (i : ℕ)
      → parse_segments positional option i (append_string_config k a ++ rest) (set null) ≡ r
  read_nonblank k a set rest key plain reads =
      read_option (λ s. s) k a set rest key (Holds-map (λ v p. p.plain) a plain)
        (Holds-map {Q = λ v. option k v (set null) ≡ some (set (known v))}
          (λ v p. reads v (IsName-nonblank v p)) a plain)

  -- The parsers whose segments all have a key.
  pub parse_config-options :
      (finish : S → Bool) (start : S) (segs : List Text) {item : S}
      → segs ≢ []
      → All IsName segs
      → parse_segments positional option 0 segs start ≡ some item
      → finish item ≡ true
      → parse_config positional option finish start (join segs b',') ≡ some item
  parse_config-options finish start [] ne plains loop done = absurd (ne refl)
  parse_config-options finish start (p ∷ segs) ne (n, ns) loop done =
      parse_config-join finish start p segs n.nonempty n.plain (All-IsName segs ns) loop done

  pub read_int64_nonblank :
      (k : Text) (a : Value ℤ) (set : Value ℤ → S) (rest : List Text) {r : Option S}
      → is_key k ≡ true
      → Holds IsInt64 a
      → ((v : Text)
          → is_empty (trim_space v) ≡ false
          → option k v (set null) ≡ (parse_int v >>= λ n. some (set (known n))))
      → ((j : ℕ) → parse_segments positional option j rest (set a) ≡ r)
      → (i : ℕ)
      → parse_segments positional option i (append_int64_config k a ++ rest) (set null) ≡ r
  read_int64_nonblank k a set rest key decided reads =
      read_option format_int k a set rest key (Holds-map (λ n _. format_int-IsPlain n) a decided) (
        Holds-map {Q = λ x. option k (format_int x) (set null) ≡ some (set (known x))}
          (λ x fits. rw (reads (format_int x) (format_int-nonblank x), parse_int-format_int x fits))
          a decided)
