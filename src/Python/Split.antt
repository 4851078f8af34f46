-- ===== src/Python/Split.antt =====
-- `str.strip`, `str.split` with a limit, `str.splitlines` and `str.endswith`.
pub mod Laws
use mathlib.Core.List.{reverse}
use tpm_attest.Prelude.{
  ℕ, zero, suc, Bool, true, false, ◌&&◌, ◌||◌, List, [], ◌∷◌, ◌==◌, between, if◌then◌else◌, Text,
  text_eq, is_empty,
}

-- the white space of `str.strip()`
unfoldable pub is_space : ℕ → Bool
is_space c =
    between 9 13 c
    || between 28 32 c
    || c == 133
    || c == 160
    || c == 5760
    || between 8192 8202 c
    || between 8232 8233 c
    || c == 8239
    || c == 8287
    || c == 12288

unfoldable pub lstrip : Text → Text
lstrip [] = []
lstrip (c ∷ s) = let rest = lstrip s in if is_space c then rest else c ∷ s

unfoldable pub rstrip : Text → Text
rstrip [] = []
rstrip (c ∷ s) = let rest = rstrip s in if is_empty rest && is_space c then [] else c ∷ rest

unfoldable pub strip : Text → Text
unfolding is_space lstrip rstrip
strip s = rstrip (lstrip s)

-- one more character at the front of the first part
unfoldable pub extend_first : ℕ → List Text → List Text
extend_first c [] = (c ∷ []) ∷ []
extend_first c (p ∷ ps) = (c ∷ p) ∷ ps

-- `s.split(sep, maxsplit)` at a separator of one character
unfoldable pub split : ℕ → ℕ → Text → List Text
unfolding extend_first
split sep limit [] = [] ∷ []
split sep zero (c ∷ s) = (c ∷ s) ∷ []
split sep (suc limit) (c ∷ s) =
    let next = [] ∷ split sep limit s in
    let same = extend_first c (split sep (suc limit) s) in if c == sep then next else same

-- where `str.splitlines()` ends a line
unfoldable pub is_line_break : ℕ → Bool
is_line_break c = between 10 13 c || between 28 30 c || c == 133 || between 8232 8233 c

-- A line feed behind a carriage return ends no second line.
unfoldable pub splitlines_from : Bool → Text → List Text
unfolding is_line_break extend_first
splitlines_from after_return [] = []
splitlines_from after_return (c ∷ s) =
    let rest = splitlines_from (c == 13) s in
    if after_return && c == 10
    then rest
    else if is_line_break c
    then [] ∷ rest
    else extend_first c rest

unfoldable pub splitlines : Text → List Text
unfolding splitlines_from
splitlines s = splitlines_from false s

-- `s.startswith(prefix)`
unfoldable pub starts_with : Text → Text → Bool
starts_with s [] = true
starts_with [] (p ∷ ps) = false
starts_with (c ∷ s) (p ∷ ps) = c == p && starts_with s ps

-- `s.endswith(suffix)`
unfoldable pub ends_with : Text → Text → Bool
unfolding starts_with
ends_with s suffix = starts_with (reverse s) (reverse suffix)
