-- ===== src/Text/Decimal.antt =====
-- strconv.FormatInt and strconv.ParseInt in base 10, with 64 bits.
use terraform_provider_proxm.Prelude.{
  ℕ, zero, suc, ◌+◌, ◌-◌, ◌*◌, ◌/◌, ◌%◌, ◌^◌, ◌≤◌, ◌<◌, ◌≡◌, ◌≢◌, refl, Bool, ◌&&◌, Option, none,
  some, [], ◌∷◌, arith, ltb, leb, ◌==◌, if◌then◌else◌, All, ◌>>=◌,
}
use terraform_provider_proxm.Int.{ℤ, pos, negsuc, negate, IsInt64}
use terraform_provider_proxm.Text.{Text, codes, is_space, IsTrimmed, Lacks}
use terraform_provider_proxm.Text.Trim.{IsSolid, solid-IsTrimmed}

-- A number below its fuel has fewer digits than that.
digits : ℕ → ℕ → Text → Text
digits zero n out = out
digits (suc fuel) n out =
    let rest = digits fuel (n / 10) ((b'0' + n % 10) ∷ out) in
    if ltb n 10 then (b'0' + n) ∷ out else rest

unfoldable pub format_nat : ℕ → Text
unfolding digits
format_nat n = digits (suc n) n []

unfoldable pub format_int : ℤ → Text
unfolding format_nat
format_int (pos n) = format_nat n
format_int (negsuc n) = b'-' ∷ format_nat (suc n)

abbrev pub is_digit : ℕ → Bool
is_digit c = leb b'0' c && leb c b'9'

unfoldable pub read_digits : Text → ℕ → Option ℕ
read_digits [] n = some n
read_digits (c ∷ s) n =
    let rest = read_digits s (n * 10 + (c - b'0')) in if is_digit c then rest else none

unfoldable pub parse_nat : Text → Option ℕ
parse_nat [] = none
parse_nat (c ∷ s) = read_digits (c ∷ s) 0

positive : ℕ → Option ℤ
positive n = if ltb n (2 ^ 63) then some (pos n) else none

negative : ℕ → Option ℤ
negative n = if leb n (2 ^ 63) then some (negate n) else none

unfoldable pub parse_int : Text → Option ℤ
unfolding read_digits parse_nat positive negative
parse_int [] = none
parse_int (c ∷ s) =
    if c == b'-'
    then parse_nat s >>= negative
    else if c == b'+'
    then parse_nat s >>= positive
    else parse_nat (c ∷ s) >>= positive

abbrev IsDigit : ℕ → Type 0
IsDigit c = (b'0' ≤ c) × (c ≤ b'9')

read_digits-digits :
    (fuel n : ℕ) (out : Text) → n < fuel → read_digits (digits fuel n out) 0 ≡ read_digits out n
unfolding digits
read_digits-digits zero n out h = absurd (omega arith)
read_digits-digits (suc fuel) n out h = ground (
  arith,
  read_last n out,
  read_first n out,
  read_digits-digits fuel (n / 10) ((b'0' + n % 10) ∷ out),
)
  where
    read_first :
        (m : ℕ) (rest : Text) → m < 10 → read_digits ((b'0' + m) ∷ rest) 0 ≡ read_digits rest m
    read_first m rest lt = unfold read_digits in ground arith

    read_last :
        (m : ℕ) (rest : Text) → read_digits ((b'0' + m % 10) ∷ rest) (m / 10) ≡ read_digits rest m
    read_last m rest = unfold read_digits in ground arith

digits-IsDigit : (fuel n : ℕ) (out : Text) → All IsDigit out → All IsDigit (digits fuel n out)
unfolding digits
digits-IsDigit zero n out h = h
digits-IsDigit (suc fuel) n out h =
    ground (arith, digits-IsDigit fuel (n / 10) ((b'0' + n % 10) ∷ out))

digits-ne-nil : (fuel n : ℕ) (out : Text) → out ≢ [] → digits fuel n out ≢ []
unfolding digits
digits-ne-nil zero n out h = h
digits-ne-nil (suc fuel) n out h =
    ground (arith, digits-ne-nil fuel (n / 10) ((b'0' + n % 10) ∷ out))

format_nat-IsDigit : (n : ℕ) → All IsDigit (format_nat n)
unfolding format_nat
format_nat-IsDigit n = digits-IsDigit (suc n) n [] tt

format_nat-ne-nil : (n : ℕ) → format_nat n ≢ []
unfolding format_nat digits
format_nat-ne-nil n = ground (arith, digits-ne-nil n (n / 10) ((b'0' + n % 10) ∷ []) (λ e. cc))

pub parse_nat-format_nat : (n : ℕ) → parse_nat (format_nat n) ≡ some n
parse_nat-format_nat n =
    unchecked (format_nat n) (format_nat-ne-nil n)
      (unfold format_nat read_digits in read_digits-digits (suc n) n [] (omega arith))
  where
    unchecked : (s : Text) → s ≢ [] → read_digits s 0 ≡ some n → parse_nat s ≡ some n
    unchecked [] ne h = absurd (ne refl)
    unchecked (c ∷ s) ne h = unfold parse_nat in h

parse_int_unsigned : (s : Text) → s ≢ [] → All IsDigit s → parse_int s ≡ (parse_nat s >>= positive)
unfolding parse_int
parse_int_unsigned [] ne h = absurd (ne refl)
parse_int_unsigned (c ∷ s) ne h = ground arith

-- Every int64 is read back from its decimal print.
pub parse_int-format_int : (z : ℤ) → IsInt64 z → parse_int (format_int z) ≡ some z
unfolding format_int
parse_int-format_int (pos n) h =
    rw
      (
        parse_int_unsigned (format_nat n) (format_nat-ne-nil n) (format_nat-IsDigit n),
        parse_nat-format_nat n,
      )
      (unfold positive in ground arith)
parse_int-format_int (negsuc n) h =
    unfold parse_int in rw (parse_nat-format_nat (suc n)) (unfold negative in ground arith)

digit-IsSolid : (s : Text) → All IsDigit s → All IsSolid s
digit-IsSolid [] h = tt
digit-IsSolid (c ∷ s) (hc, hs) = (unfold is_space in ground arith, digit-IsSolid s hs)

digit-Lacks : (b : ℕ) (s : Text) → b < b'0' → All IsDigit s → Lacks b s
digit-Lacks b [] lt h = tt
digit-Lacks b (c ∷ s) lt (hc, hs) = (omega arith, digit-Lacks b s lt hs)

pub format_int-IsTrimmed : (z : ℤ) → IsTrimmed (format_int z)
unfolding format_int
format_int-IsTrimmed (pos n) =
    solid-IsTrimmed (format_nat n) (digit-IsSolid (format_nat n) (format_nat-IsDigit n))
format_int-IsTrimmed (negsuc n) =
    solid-IsTrimmed (b'-' ∷ format_nat (suc n))
      (unfold is_space in refl, digit-IsSolid _ (format_nat-IsDigit (suc n)))

pub format_int-Lacks-comma : (z : ℤ) → Lacks b',' (format_int z)
unfolding format_int
format_int-Lacks-comma (pos n) = digit-Lacks b',' _ (omega arith) (format_nat-IsDigit n)
format_int-Lacks-comma (negsuc n) =
    (omega arith, digit-Lacks b',' _ (omega arith) (format_nat-IsDigit (suc n)))

pub format_int-Lacks-slash : (z : ℤ) → Lacks b'/' (format_int z)
unfolding format_int
format_int-Lacks-slash (pos n) = digit-Lacks b'/' _ (omega arith) (format_nat-IsDigit n)
format_int-Lacks-slash (negsuc n) =
    (omega arith, digit-Lacks b'/' _ (omega arith) (format_nat-IsDigit (suc n)))

format_int_example : format_int (negsuc 41) ≡ codes "-42"
unfolding format_int
format_int_example = refl

pub format_int-ne-nil : (z : ℤ) → format_int z ≢ []
unfolding format_int
format_int-ne-nil (pos n) = format_nat-ne-nil n
format_int-ne-nil (negsuc n) = λ e. cc
