-- ===== src/Vm/Resize/Reads.antt =====
-- Lemmas on internal/provider/qemu_vm_resize.go: the two loops over a wire value, and the sorted slots.
use terraform_provider_proxm.Prelude.{
  ◌≡◌, refl, sym, ap, ◌∙◌, subst, Bool, true, false, ◌||◌, Option, none, some, List, [], ◌∷◌, All,
  Bool-cases, inl, inr, if◌then◌else◌,
}
use terraform_provider_proxm.Int.{ℤ}
use terraform_provider_proxm.Text.{Text, codes, text_eq}
use terraform_provider_proxm.Text.Equal.{text_eq→eq}
use terraform_provider_proxm.Text.Sort.{sorted_strings, text_leb, insert_text}
use terraform_provider_proxm.Config.{split_config_segments, split_config_key_value}
use terraform_provider_proxm.Vm.Slots.{MapOf, find}
use terraform_provider_proxm.Vm.Resize.{
  Drive, add_segment, add_segments, set_key, add_size, last_size, read_drive, read_size, keys,
}

set_key-size :
    (key value : Text) (drive : Drive)
    → (set_key key value drive).size ≡ add_size (some (key, value)) drive.size
set_key-size key value drive = elim (Bool-cases (text_eq key (codes "size"))) [
  | inl same ↦
      subst (λ k. (set_key k value drive).size ≡ add_size (some (k, value)) drive.size)
        (sym (text_eq→eq key (codes "size") same)) refl
  | inr other ↦ rw other (
      others (text_eq key (codes "file") || text_eq key (codes "volume"))
        (text_eq key (codes "media")))
]
  where
    others :
        (a b : Bool)
        → (if a
            then record drive { volume = value }
            else if b
            then record drive { media = value }
            else drive).size
          ≡ drive.size
    others true b = refl
    others false true = refl
    others false false = refl

add_segments-last_size :
    (first : Bool) (segments : List Text) (drive : Drive)
    → (add_segments first segments drive).size ≡ last_size segments drive.size
unfolding add_segments last_size
add_segments-last_size first [] drive = refl
add_segments-last_size first (segment ∷ segments) drive =
    add_segments-last_size false segments
      (add_segment first segment (split_config_key_value segment) drive)
    ∙ ap (last_size segments) (step first (split_config_key_value segment))
  where
    step :
        (first : Bool) (part : Option (Text × Text))
        → (add_segment first segment part drive).size ≡ add_size part drive.size
    step true none = refl
    step false none = refl
    step first (some (key, value)) = set_key-size key value drive

-- The two loops read the same size.
pub read_drive-size : (wire : Text) → (read_drive wire).size ≡ read_size wire
unfolding read_drive read_size
read_drive-size wire = add_segments-last_size true (split_config_segments wire) _

insert_text-All :
    (P : Text → Type 0) (s : Text) (ss : List Text) → All P (insert_text s ss) → P s × All P ss
insert_text-All P s [] h = h
insert_text-All P s (t ∷ ts) h = elim (Bool-cases (text_leb s t)) [
  | inl e ↦ (rw e at h)
  | inr e ↦
      let (ht, rest) = rw e at h in let (hs, hts) = insert_text-All P s ts rest in (hs, (ht, hts))
]

pub sorted_strings-All : (P : Text → Type 0) (ss : List Text) → All P (sorted_strings ss) → All P ss
unfolding sorted_strings
sorted_strings-All P [] h = tt
sorted_strings-All P (s ∷ ss) h =
    let (hs, rest) = insert_text-All P s (sorted_strings ss) h in (hs, sorted_strings-All P ss rest)

pub keys-find :
    (P : Text → Type 0) (targets : MapOf ℤ) (slot : Text) (gib : ℤ)
    → find targets slot ≡ some gib
    → All P (keys targets)
    → P slot
keys-find P [] slot gib e h = cc
keys-find P ((s, n) ∷ targets) slot gib e (hs, h) = elim (Bool-cases (text_eq s slot)) [
  | inl same ↦ subst P (text_eq→eq s slot same) hs
  | inr other ↦ keys-find P targets slot gib (rw other at e) h
]
