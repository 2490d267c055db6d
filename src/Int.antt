-- ===== src/Int.antt =====
-- Go's int64 values as integers; `negsuc n` is -(n + 1).
use terraform_provider_proxm.Prelude.{
  ℕ, zero, suc, ◌^◌, ◌<◌, ◌≡◌, ap, Bool, true, false, ltb, ◌==◌, ==→eq,
}

pub data ℤ : Type 0 where
  pos : ℕ → ℤ
  negsuc : ℕ → ℤ

-- -2^63 ≤ n < 2^63
abbrev pub IsInt64 : ℤ → Type 0
IsInt64 (pos n) = n < 2 ^ 63
IsInt64 (negsuc n) = n < 2 ^ 63

abbrev pub negate : ℕ → ℤ
negate zero = pos 0
negate (suc n) = negsuc n

abbrev pub ltz : ℤ → ℤ → Bool
ltz (pos a) (pos b) = ltb a b
ltz (pos a) (negsuc b) = false
ltz (negsuc a) (pos b) = true
ltz (negsuc a) (negsuc b) = ltb b a

abbrev pub eqz : ℤ → ℤ → Bool
eqz (pos a) (pos b) = a == b
eqz (negsuc a) (negsuc b) = a == b
eqz _ _ = false

pub eqz→eq : (a b : ℤ) → eqz a b ≡ true → a ≡ b
eqz→eq (pos a) (pos b) h = ap pos (==→eq a b h)
eqz→eq (negsuc a) (negsuc b) h = ap negsuc (==→eq a b h)
eqz→eq (pos a) (negsuc b) h = cc
eqz→eq (negsuc a) (pos b) h = cc
