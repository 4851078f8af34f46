-- ===== src/Python/Unicode.antt =====
-- `str.lower()` and `int(s, 16)`. The tables of Unicode are an argument.
use tpm_attest.Prelude.{
  ℕ, ◌+◌, ◌≡◌, Bool, true, false, ◌&&◌, ◌||◌, Option, none, some, [], ◌∷◌, map, ◌==◌, ltb, between,
  if◌then◌else◌, Text, all,
}
use tpm_attest.Python.Split.{is_space}

-- `lower` is `str.lower`, and `decimal` the value of a code point that is a decimal digit. A text in
-- lower case stays as it is, and no text but the empty one has an empty lower case.
pub record Unicode : Type 0 where
  pub lower : Text → Text
  pub decimal : ℕ → Option ℕ
  pub lower-lower : (s : Text) → lower (lower s) ≡ lower s
  pub lower-eq-nil : (s : Text) → lower s ≡ [] → s ≡ []

unfoldable pub is_hex_digit : ℕ → Bool
is_hex_digit c = between 48 57 c || between 65 70 c || between 97 102 c

unfoldable pub is_ascii_space : ℕ → Bool
is_ascii_space c = between 9 13 c || c == 32

-- digits with single underscores between them, and white space behind; the flag is set behind an
-- underscore
unfoldable pub digits_run : Bool → Text → Bool
unfolding is_hex_digit is_ascii_space
digits_run after_underscore [] = if after_underscore then false else true
digits_run after_underscore (c ∷ s) =
    let digit = digits_run false s in
    let underscore = digits_run true s in
    if is_hex_digit c
    then digit
    else if after_underscore
    then false
    else if c == 95
    then underscore
    else is_ascii_space c && all is_ascii_space s

-- the first digit
unfoldable pub digits_start : Text → Bool
unfolding digits_run
digits_start [] = false
digits_start (c ∷ s) = if is_hex_digit c then digits_run false s else false

unfoldable pub skip_underscore : Text → Text
skip_underscore [] = []
skip_underscore (c ∷ s) = if c == 95 then s else c ∷ s

-- "0x" or "0X"
unfoldable pub skip_prefix : Text → Text
unfolding skip_underscore
skip_prefix [] = []
skip_prefix (c ∷ []) = c ∷ []
skip_prefix (c ∷ x ∷ s) = if c == 48 && (x == 120 || x == 88) then skip_underscore s else c ∷ x ∷ s

unfoldable pub skip_sign : Text → Text
skip_sign [] = []
skip_sign (c ∷ s) = if c == 43 || c == 45 then s else c ∷ s

unfoldable pub skip_spaces : Text → Text
skip_spaces [] = []
skip_spaces (c ∷ s) = let rest = skip_spaces s in if is_ascii_space c then rest else c ∷ s

module _ (u : Unicode) where
  unfoldable pub to_ascii : ℕ → ℕ
  to_ascii c =
      if ltb c 127
      then c
      else if is_space c
      then 32
      else elim (u.decimal c) [ none ↦ 63 | some d ↦ 48 + d ]

  -- whether `int(s, 16)` returns a number: it raises ValueError otherwise
  unfoldable pub is_int16 : Text → Bool
  unfolding skip_spaces skip_sign skip_prefix digits_start to_ascii is_space
  is_int16 s = digits_start (skip_prefix (skip_sign (skip_spaces (map to_ascii s))))
