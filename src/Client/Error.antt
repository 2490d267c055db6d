-- ===== src/Client/Error.antt =====
-- Go errors as the provider tells them apart: errNotFound, APIError, and messages around them.
use terraform_provider_proxm.Prelude.{
  ℕ, Bool, true, false, ◌||◌, Option, none, some, [], ◌∷◌, ◌++◌, ◌==◌, if◌then◌else◌, not,
}
use terraform_provider_proxm.Text.{Text, codes, is_empty}
use terraform_provider_proxm.Text.Decimal.{format_nat}

pub data Error : Type 0 where
  -- errNotFound
  not_found : Error
  -- APIError: status code, message, body
  api_error : ℕ → Text → Text → Error
  -- errors.New, fmt.Errorf without %w, and errors of the transport
  failure : Text → Error
  -- fmt.Errorf("…: %w", err)
  wrapped : Text → Error → Error
  -- fmt.Errorf("%w: %w", err, err)
  joined : Error → Error → Error

pub data Result {ℓ} (A : Type ℓ) : Type ℓ where
  ok : A → Result A
  err : Error → Result A

abbrev pub is_ok {ℓ} : {A : Type ℓ} → Result A → Bool
is_ok (ok a) = true
is_ok (err e) = false

-- The API's own error.
abbrev pub api_error_text : ℕ → Text → Text → Text
api_error_text status message body =
    let prefix = codes "proxmox API request failed with status " ++ format_nat status in
    if not (is_empty message)
    then prefix ++ (codes ": " ++ message)
    else if not (is_empty body)
    then prefix ++ (codes ": " ++ body)
    else prefix

-- err.Error()
unfoldable pub error_text : Error → Text
unfolding format_nat
error_text not_found = codes "proxmox resource not found"
error_text (api_error status message body) = api_error_text status message body
error_text (failure message) = message
error_text (wrapped message e) = message ++ (codes ": " ++ error_text e)
error_text (joined a b) = error_text a ++ (codes ": " ++ error_text b)

-- errors.Is(err, errNotFound)
abbrev pub is_not_found : Error → Bool
is_not_found not_found = true
is_not_found (api_error _ _ _) = false
is_not_found (failure _) = false
is_not_found (wrapped _ e) = is_not_found e
is_not_found (joined a b) = is_not_found a || is_not_found b

abbrev or_else : Option (ℕ × Text) → Option (ℕ × Text) → Option (ℕ × Text)
or_else none b = b
or_else (some a) b = some a

-- errors.As(err, &apiErr): the status code and the body of the first APIError in the chain
abbrev pub as_api_error : Error → Option (ℕ × Text)
as_api_error not_found = none
as_api_error (api_error status _ body) = some (status, body)
as_api_error (failure _) = none
as_api_error (wrapped _ e) = as_api_error e
as_api_error (joined a b) = or_else (as_api_error a) (as_api_error b)

-- fmt's %q for printable text
abbrev escape : ℕ → Text → Text
escape c rest = if (c == b'"') || (c == b'\\') then b'\\' ∷ c ∷ rest else c ∷ rest

abbrev quoted_body : Text → Text
quoted_body [] = b'"' ∷ []
quoted_body (c ∷ s) = escape c (quoted_body s)

abbrev pub quote : Text → Text
quote s = b'"' ∷ quoted_body s

infixl 5 ◌>>=◌
abbrev pub ◌>>=◌ {ℓ κ} : {A : Type ℓ} {B : Type κ} → Result A → (A → Result B) → Result B
ok a >>= f = f a
err e >>= f = err e
