-- ===== src/Text/Split.antt =====
-- Lemmas on strings.Split, strings.Join and strings.Cut.
use terraform_provider_proxm.Prelude.{
  ℕ, ◌≡◌, ◌≢◌, refl, none, some, List, [], ◌∷◌, ◌++◌, All, ==_false, ==_self,
}
use terraform_provider_proxm.Text.{Text, split, join, cut, Lacks}

pub split-Lacks : (s : Text) (sep : ℕ) → Lacks sep s → split s sep ≡ s ∷ []
unfolding split
split-Lacks [] sep h = refl
split-Lacks (c ∷ s) sep (hc, hs) = rw (==_false c sep hc, split-Lacks s sep hs)

pub split-append : (p r : Text) (sep : ℕ) → Lacks sep p → split (p ++ sep ∷ r) sep ≡ p ∷ split r sep
unfolding split
split-append [] r sep h = rw ==_self
split-append (c ∷ p) r sep (hc, hp) = rw (==_false c sep hc, split-append p r sep hp)

-- Splitting a join gives the parts back.
pub split-join :
    (ps : List Text) (sep : ℕ) → ps ≢ [] → All (Lacks sep) ps → split (join ps sep) sep ≡ ps
unfolding join
split-join [] sep ne h = absurd (ne refl)
split-join (p ∷ []) sep ne (hp, _) = split-Lacks p sep hp
split-join (p ∷ q ∷ ps) sep ne (hp, hs) =
    rw (split-append p (join (q ∷ ps) sep) sep hp, split-join (q ∷ ps) sep (λ e. cc) hs)

pub cut-append : (k v : Text) (sep : ℕ) → Lacks sep k → cut (k ++ sep ∷ v) sep ≡ some (k, v)
unfolding cut
cut-append [] v sep h = rw ==_self
cut-append (c ∷ k) v sep (hc, hk) = rw (==_false c sep hc, cut-append k v sep hk)

pub cut-Lacks : (s : Text) (sep : ℕ) → Lacks sep s → cut s sep ≡ none
unfolding cut
cut-Lacks [] sep h = refl
cut-Lacks (c ∷ s) sep (hc, hs) = rw (==_false c sep hc, cut-Lacks s sep hs)
