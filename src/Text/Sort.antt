-- ===== src/Text/Sort.antt =====
-- sort.Strings, and strings.Join with a separator of several characters.
use terraform_provider_proxm.Prelude.{
  Bool, true, false, List, [], ◌∷◌, ◌++◌, ltb, ◌==◌, if◌then◌else◌,
}
use terraform_provider_proxm.Text.{Text}

-- Go orders strings by their bytes, and so by their code points.
abbrev pub text_leb : Text → Text → Bool
text_leb [] t = true
text_leb (c ∷ s) [] = false
text_leb (c ∷ s) (d ∷ t) = if c == d then text_leb s t else ltb c d

abbrev pub insert_text : Text → List Text → List Text
insert_text s [] = s ∷ []
insert_text s (t ∷ ts) = if text_leb s t then s ∷ t ∷ ts else t ∷ insert_text s ts

unfoldable pub sorted_strings : List Text → List Text
sorted_strings [] = []
sorted_strings (s ∷ ss) = insert_text s (sorted_strings ss)

unfoldable pub join_text : List Text → Text → Text
join_text [] separator = []
join_text (s ∷ []) separator = s
join_text (s ∷ t ∷ ts) separator = s ++ (separator ++ join_text (t ∷ ts) separator)
