-- ===== src/Device/Pattern/Safe.antt =====
-- Lemmas on the patterns of internal/provider/qemu_vm_devices.go: what they match needs no quoting in a
-- property string.
use terraform_provider_proxm.Prelude.{
  ℕ, zero, suc, ◌≡◌, ◌≢◌, refl, sym, subst, Bool, true, false, ◌&&◌, Option, none, some, List, [],
  ◌∷◌, ◌==◌, All, ◌>>=◌, arith, Bool-cases, inl, inr, ==→eq,
}
use terraform_provider_proxm.Text.{Text, is_space, split, Lacks, push, text_eq}
use terraform_provider_proxm.Text.Trim.{solid-IsTrimmed}
use terraform_provider_proxm.Text.Equal.{text_eq→eq}
use terraform_provider_proxm.Text.Decimal.{is_digit}
use terraform_provider_proxm.Config.{IsPlain}
use terraform_provider_proxm.Device.Volume.{IsVolume}
use terraform_provider_proxm.Device.Pattern.{
  all_of, some_of, all_parts, is_hex, is_letter, is_id_char, exactly, literal, at_end, is_dir_id,
  one_of, is_pci_address, is_host_pci_host, is_usb_id, is_pci_id,
}

-- No space, no comma and no equals sign.
abbrev pub Safe : ℕ → Type 0
Safe c = (is_space c ≡ false) × (c ≢ b',') × (c ≢ b'=')

Safe-solid : (s : Text) → All Safe s → All (λ c. is_space c ≡ false) s
Safe-solid [] h = tt
Safe-solid (c ∷ s) ((h, _, _), hs) = (h, Safe-solid s hs)

Safe-comma : (s : Text) → All Safe s → Lacks b',' s
Safe-comma [] h = tt
Safe-comma (c ∷ s) ((_, h, _), hs) = (h, Safe-comma s hs)

Safe-equals : (s : Text) → All Safe s → Lacks b'=' s
Safe-equals [] h = tt
Safe-equals (c ∷ s) ((_, _, h), hs) = (h, Safe-equals s hs)

pub Safe-IsPlain : (s : Text) → All Safe s → IsPlain s
Safe-IsPlain s h = record {
  trimmed = solid-IsTrimmed s (Safe-solid s h);
  no_comma = Safe-comma s h;
}

pub Safe-IsVolume : (s : Text) → s ≢ [] → All Safe s → IsVolume s
Safe-IsVolume s ne h = record {
  nonempty = ne;
  plain = Safe-IsPlain s h;
  no_equals = Safe-equals s h;
}

pub and_parts : (a b : Bool) → (a && b) ≡ true → (a ≡ true) × (b ≡ true)
and_parts true b h = (refl, h)
and_parts false b h = cc

digit-Safe : (c : ℕ) → is_digit c ≡ true → Safe c
unfolding is_space
digit-Safe c h = (ground arith, ground arith, ground arith)

hex-Safe : (c : ℕ) → is_hex c ≡ true → Safe c
unfolding is_space
hex-Safe c h = (ground arith, ground arith, ground arith)

id_char-Safe : (c : ℕ) → is_id_char c ≡ true → Safe c
unfolding is_space
id_char-Safe c h = (ground arith, ground arith, ground arith)

letter-Safe : (c : ℕ) → is_letter c ≡ true → Safe c
unfolding is_space
letter-Safe c h = (ground arith, ground arith, ground arith)

module _ (p : ℕ → Bool) (safe : (c : ℕ) → p c ≡ true → Safe c) where
  all_of-Safe : (s : Text) → all_of p s ≡ true → All Safe s
  all_of-Safe [] h = tt
  all_of-Safe (c ∷ s) h = let (a, b) = and_parts (p c) (all_of p s) h in (safe c a, all_of-Safe s b)

  some_of-Safe : (s : Text) → some_of p s ≡ true → (s ≢ []) × All Safe s
  some_of-Safe [] h = cc
  some_of-Safe (c ∷ s) h = ((λ e. cc), all_of-Safe (c ∷ s) h)

  exactly-Safe : (n : ℕ) (s rest : Text) → exactly p n s ≡ some rest → All Safe rest → All Safe s
  exactly-Safe zero s rest h safe_rest = subst (All Safe) (sym (some_eq h)) safe_rest
    where
      some_eq : {a b : Text} → some a ≡ some b → a ≡ b
      some_eq e = cc
  exactly-Safe (suc n) [] rest h safe_rest = cc
  exactly-Safe (suc n) (c ∷ s) rest h safe_rest = elim (Bool-cases (p c)) [
    | inl yes' ↦ (safe c yes', exactly-Safe n s rest (rw yes' at h) safe_rest)
    | inr no' ↦ cc (rw no' at h)
  ]

-- A dir id can stand alone as a segment.
pub dir_id-IsVolume : (s : Text) → is_dir_id s ≡ true → IsVolume s
unfolding is_dir_id
dir_id-IsVolume [] h = cc
dir_id-IsVolume (c ∷ s) h =
    let (a, b) = and_parts (is_letter c) (some_of is_id_char s) h in
    Safe-IsVolume (c ∷ s) (λ e. cc) (letter-Safe c a, (some_of-Safe is_id_char id_char-Safe s b).1)

-- One of the texts of a list for which a property holds.
pub one_of-holds :
    (P : Text → Type 0) (ts : List Text) (s : Text) → All P ts → one_of ts s ≡ true → P s
one_of-holds P [] s h e = cc
one_of-holds P (t ∷ ts) s (ht, hs) e = elim (Bool-cases (text_eq t s)) [
  | inl same ↦ subst P (text_eq→eq t s same) ht
  | inr other ↦ one_of-holds P ts s hs (rw other at e)
]

-- A successful step of a chain of patterns.
bind_some :
    (m : Option Text) (f : Text → Option Text) {r : Text}
    → (m >>= f) ≡ some r
    → (t : Text) × (m ≡ some t) × (f t ≡ some r)
bind_some none f h = cc
bind_some (some t) f h = (t, refl, h)

literal-Safe :
    (c : ℕ) (s rest : Text) → Safe c → literal c s ≡ some rest → All Safe rest → All Safe s
literal-Safe c [] rest safe h hr = cc
literal-Safe c (d ∷ s) rest safe h hr = elim (Bool-cases (d == c)) [
  | inl same ↦
      (subst Safe (sym (==→eq d c same)) safe, subst (All Safe) (sym (some_eq (rw same at h))) hr)
  | inr other ↦ cc (rw other at h)
]
  where
    some_eq : {a b : Text} → some a ≡ some b → a ≡ b
    some_eq e = cc

ended : (m : Option Text) → at_end m ≡ true → m ≡ some []
ended none h = cc
ended (some []) h = refl
ended (some (c ∷ s)) h = cc

colon-Safe : Safe b':'
unfolding is_space
colon-Safe = (refl, (λ e. omega arith), (λ e. omega arith))

point-Safe : Safe b'.'
unfolding is_space
point-Safe = (refl, (λ e. omega arith), (λ e. omega arith))

pci_address-Safe : (s : Text) → is_pci_address s ≡ true → All Safe s
pci_address-Safe s h =
    let (t6, e6, h7) = bind_some _ (exactly is_hex 1) (ended _ h) in
    let (t5, e5, h6) = bind_some _ (literal b'.') e6 in
    let (t4, e4, h5) = bind_some _ (exactly is_hex 2) e5 in
    let (t3, e3, h4) = bind_some _ (literal b':') e4 in
    let (t2, e2, h3) = bind_some _ (exactly is_hex 2) e3 in
    let (t1, h1, h2) = bind_some (exactly is_hex 4 s) (literal b':') e2 in
    exactly-Safe is_hex hex-Safe 4 s t1 h1 (
      literal-Safe b':' t1 t2 colon-Safe h2 (
        exactly-Safe is_hex hex-Safe 2 t2 t3 h3 (
          literal-Safe b':' t3 t4 colon-Safe h4 (
            exactly-Safe is_hex hex-Safe 2 t4 t5 h5 (
              literal-Safe b'.' t5 t6 point-Safe h6
                (exactly-Safe is_hex hex-Safe 1 t6 [] h7 tt))))))

usb_id-Safe : (s : Text) → is_usb_id s ≡ true → All Safe s
usb_id-Safe s h =
    let (t2, e2, h3) = bind_some _ (exactly is_hex 4) (ended _ h) in
    let (t1, h1, h2) = bind_some (exactly is_hex 4 s) (literal b':') e2 in
    exactly-Safe is_hex hex-Safe 4 s t1 h1
      (literal-Safe b':' t1 t2 colon-Safe h2 (exactly-Safe is_hex hex-Safe 4 t2 [] h3 tt))

-- A text is safe if its separator is and its parts are.
module _ (sep : ℕ) (safe : Safe sep) (p : Text → Bool)
    (parts : (s : Text) → p s ≡ true → All Safe s) where
  abbrev Parts : List Text → Type 0
  Parts [] = Unit
  Parts (s ∷ ss) = All Safe s × Parts ss

  all_parts-Parts : (ss : List Text) → all_parts p ss ≡ true → Parts ss
  all_parts-Parts [] h = tt
  all_parts-Parts (s ∷ ss) h =
      let (a, b) = and_parts (p s) (all_parts p ss) h in (parts s a, all_parts-Parts ss b)

  push-Parts : (c : ℕ) (ss : List Text) → Parts (push c ss) → Safe c × Parts ss
  push-Parts c [] ((h, _), _) = (h, tt)
  push-Parts c (s ∷ ss) ((h, hs), hss) = (h, (hs, hss))

  split-Parts : (s : Text) → Parts (split s sep) → All Safe s
  unfolding split
  split-Parts [] h = tt
  split-Parts (c ∷ s) h = elim (Bool-cases (c == sep)) [
    | inl same ↦
        let (_, rest) = pair (rw same at h) in
        (subst Safe (sym (==→eq c sep same)) safe, split-Parts s rest)
    | inr other ↦
        let (hc, rest) = push-Parts c (split s sep) (rw other at h) in (hc, split-Parts s rest)
  ]
    where
      pair : Parts ([] ∷ split s sep) → Unit {0} × Parts (split s sep)
      pair x = x

  split-Safe : (s : Text) → all_parts p (split s sep) ≡ true → All Safe s
  split-Safe s h = split-Parts s (all_parts-Parts (split s sep) h)

semicolon-Safe : Safe b';'
unfolding is_space
semicolon-Safe = (refl, (λ e. omega arith), (λ e. omega arith))

pub host_pci_host-IsVolume : (s : Text) → is_host_pci_host s ≡ true → IsVolume s
unfolding is_host_pci_host
host_pci_host-IsVolume [] h = unfold split in cc
host_pci_host-IsVolume (c ∷ s) h =
    Safe-IsVolume (c ∷ s) (λ e. cc)
      (split-Safe b';' semicolon-Safe is_pci_address pci_address-Safe (c ∷ s) h)

dash-Safe : Safe b'-'
unfolding is_space
dash-Safe = (refl, (λ e. omega arith), (λ e. omega arith))

pub pci_id-IsPlain : (s : Text) → is_pci_id s ≡ true → IsPlain s
unfolding is_pci_id
pci_id-IsPlain s h =
    let (t2, e2, h3) = bind_some _ (exactly is_hex 4) (ended _ h) in
    let (t1, h1, h2) = bind_some (literal b'0' s) (literal b'x') e2 in
    Safe-IsPlain s (
      literal-Safe b'0' s t1 zero-Safe h1
        (literal-Safe b'x' t1 t2 x-Safe h2 (exactly-Safe is_hex hex-Safe 4 t2 [] h3 tt)))
  where
    zero-Safe : Safe b'0'
    zero-Safe = digit-Safe b'0' refl

    x-Safe : Safe b'x'
    x-Safe = letter-Safe b'x' refl
