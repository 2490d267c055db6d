-- ===== src/Text.antt =====
-- Go strings as lists of code points, and the functions of Go's packages strings and unicode that
-- the provider calls on them.
pub mod Trim
pub mod Equal
pub mod Sort
pub mod Split
pub mod Decimal
use Prim.Native.Char.{code}
use Prim.Native.String.{String}
use terraform_provider_proxm.Prelude.{
  ℕ, ◌+◌, ◌≡◌, ◌≢◌, refl, Bool, true, false, ◌&&◌, ◌||◌, Option, none, some, List, [], ◌∷◌, ◌++◌,
  leb, ◌==◌, if◌then◌else◌, All,
}

abbrev pub Text : Type 0
Text = List ℕ

abbrev pub codes : String → Text
codes String.[] = []
codes (String.◌∷◌ c s) = code c ∷ codes s

abbrev pub text_eq : Text → Text → Bool
text_eq [] [] = true
text_eq (x ∷ xs) (y ∷ ys) = (x == y) && text_eq xs ys
text_eq _ _ = false

abbrev pub is_empty : Text → Bool
is_empty [] = true
is_empty (_ ∷ _) = false

-- unicode.IsSpace
unfoldable pub is_space : ℕ → Bool
is_space c =
    (leb 9 c && leb c 13)
    || (c == 32)
    || (c == 0x85)
    || (c == 0xA0)
    || (c == 0x1680)
    || (leb 0x2000 c && leb c 0x200A)
    || (c == 0x2028)
    || (c == 0x2029)
    || (c == 0x202F)
    || (c == 0x205F)
    || (c == 0x3000)

pub trim_left : Text → Text
trim_left [] = []
trim_left (c ∷ s) = if is_space c then trim_left s else c ∷ s

-- A character before kept ones is kept.
keep : ℕ → Text → Text
keep c [] = if is_space c then [] else c ∷ []
keep c (d ∷ s) = c ∷ d ∷ s

pub trim_right : Text → Text
trim_right [] = []
trim_right (c ∷ s) = keep c (trim_right s)

-- strings.TrimSpace
unfoldable pub trim_space : Text → Text
unfolding is_space trim_left trim_right keep
trim_space s = trim_right (trim_left s)

-- Trimming leaves the text alone.
unfoldable pub is_trimmed : Text → Bool
unfolding is_space trim_left trim_right keep
is_trimmed s = text_eq (trim_left s) s && text_eq (trim_right s) s

abbrev pub push : ℕ → List Text → List Text
push c [] = (c ∷ []) ∷ []
push c (p ∷ ps) = (c ∷ p) ∷ ps

-- strings.Split at a separator of one character
unfoldable pub split : Text → ℕ → List Text
split [] sep = [] ∷ []
split (c ∷ s) sep = let rest = split s sep in if c == sep then [] ∷ rest else push c rest

-- strings.Join with a separator of one character
unfoldable pub join : List Text → ℕ → Text
join [] sep = []
join (p ∷ []) sep = p
join (p ∷ q ∷ ps) sep = p ++ (sep ∷ join (q ∷ ps) sep)

abbrev pub behind : ℕ → Option (Text × Text) → Option (Text × Text)
behind c none = none
behind c (some (a, b)) = some (c ∷ a, b)

-- strings.Cut at a separator of one character; strings.SplitN(s, sep, 2) has two parts just then
unfoldable pub cut : Text → ℕ → Option (Text × Text)
cut [] sep = none
cut (c ∷ s) sep = let rest = cut s sep in if c == sep then some ([], s) else behind c rest

-- What follows a prefix, for strings.HasPrefix and the slice behind it.
unfoldable pub after : Text → Text → Option Text
after [] s = some s
after (p ∷ ps) [] = none
after (p ∷ ps) (c ∷ s) = let rest = after ps s in if p == c then rest else none

unfoldable pub has_prefix : Text → Text → Bool
unfolding after
has_prefix s p = elim (after p s) [ none ↦ false | some _ ↦ true ]

unfoldable pub has_suffix : Text → Text → Bool
has_suffix [] q = text_eq [] q
has_suffix (c ∷ s) q = text_eq (c ∷ s) q || has_suffix s q

unfoldable pub contains : Text → Text → Bool
unfolding has_prefix
contains [] q = has_prefix [] q
contains (c ∷ s) q = has_prefix (c ∷ s) q || contains s q

-- unicode.ToLower, as far as it meets ASCII: the capitals, and the two other code points whose
-- lower case is an ASCII letter. The code compares its results with ASCII text only.
unfoldable pub lower : ℕ → ℕ
lower c =
    if leb b'A' c && leb c b'Z'
    then c + 32
    else if c == 0x130
    then b'i'
    else if c == 0x212A
    then b'k'
    else c

unfoldable pub to_lower : Text → Text
unfolding lower
to_lower [] = []
to_lower (c ∷ s) = lower c ∷ to_lower s

-- A text that trimming leaves alone.
pub record IsTrimmed (s : Text) : Type 0 where
  pub left : trim_left s ≡ s
  pub right : trim_right s ≡ s

abbrev pub Lacks : ℕ → Text → Type 0
Lacks b = All (λ c. c ≢ b)

trim_space_example : trim_space (codes "  a b\n") ≡ codes "a b"
unfolding trim_space
trim_space_example = refl

split_example : split (codes "a,,b") b',' ≡ codes "a" ∷ [] ∷ codes "b" ∷ []
unfolding split
split_example = refl
