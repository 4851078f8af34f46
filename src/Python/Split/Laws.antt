-- ===== src/Python/Split/Laws.antt =====
-- What stripping and splitting do to a text that was put together with separators.
use tpm_attest.Prelude.{
  ℕ, zero, suc, ◌≤◌, ◌+◌, ◌≡◌, ◌≢◌, refl, false, List, [], ◌∷◌, ◌++◌, arith, ==_iff, Text, All,
  length, is_empty, append_assoc,
}
use tpm_attest.Python.Split.{is_space, lstrip, rstrip, strip, extend_first, split}

-- no character of the text is the separator
abbrev pub Lacks : ℕ → Text → Type 0
Lacks sep s = All (λ c. c ≢ sep) s

extend_first-append : (c : ℕ) (p : Text) (ps : List Text) → extend_first c (p ∷ ps) ≡ (c ∷ p) ∷ ps
unfolding extend_first
extend_first-append c p ps = refl

-- The first part ends at the first separator.
pub split-cons :
    (sep limit : ℕ) (p s : Text)
    → Lacks sep p
    → split sep (suc limit) (p ++ sep ∷ s) ≡ p ∷ split sep limit s
unfolding split
split-cons sep limit [] s h = ground (arith, ==_iff sep sep)
split-cons sep limit (c ∷ p) s h = ground (arith, split-cons sep limit p s, h.0)

-- Without splits left, the rest is one part.
pub split-zero : (sep : ℕ) (s : Text) → split sep 0 s ≡ s ∷ []
unfolding split
split-zero sep [] = refl
split-zero sep (c ∷ s) = refl

extend_first-length :
    (c limit : ℕ) (ps : List Text) → length ps ≤ suc limit → length (extend_first c ps) ≤ suc limit
unfolding extend_first
extend_first-length c limit [] h = omega arith
extend_first-length c limit (p ∷ ps) h = omega arith

pub length-split-le : (sep limit : ℕ) (s : Text) → length (split sep limit s) ≤ limit + 1
unfolding split
length-split-le sep limit [] = omega arith
length-split-le sep zero (c ∷ s) = omega arith
length-split-le sep (suc limit) (c ∷ s) = ground (
  arith,
  length-split-le sep limit s,
  length-split-le sep (suc limit) s,
  extend_first-length c (suc limit) (split sep (suc limit) s),
)

-- A text whose ends are no white space is left as it is.
abbrev pub HasEdges : Text → Type 0
HasEdges s = (lstrip s ≡ s) × (rstrip s ≡ s)

pub strip-HasEdges : (s : Text) → HasEdges s → strip s ≡ s
unfolding strip
strip-HasEdges s h = rw (h.0, h.1)

-- The text starts, or ends, with a character that is no white space.
abbrev pub StartsInk : Text → Type 0
StartsInk [] = ⊥
StartsInk (c ∷ s) = is_space c ≡ false

abbrev pub EndsInk : Text → Type 0
EndsInk s = (s ≢ []) × (rstrip s ≡ s)

pub lstrip-append : (s t : Text) → StartsInk s → lstrip (s ++ t) ≡ s ++ t
unfolding lstrip
lstrip-append [] t h = absurd h
lstrip-append (c ∷ s) t h = rw h

is_empty-append : (s t : Text) → t ≢ [] → is_empty (s ++ t) ≡ false
is_empty-append [] [] ne = absurd (ne refl)
is_empty-append [] (c ∷ t) ne = refl
is_empty-append (c ∷ s) t ne = refl

cons_append-ne-nil : (c : ℕ) (s t : Text) → s ++ c ∷ t ≢ []
cons_append-ne-nil c [] t e = cc
cons_append-ne-nil c (d ∷ s) t e = cc

rstrip-append : (s t : Text) → EndsInk t → rstrip (s ++ t) ≡ s ++ t
unfolding rstrip
rstrip-append [] t h = h.1
rstrip-append (c ∷ s) t h = rw (rstrip-append s t h, is_empty-append s t h.0)

-- The end of a text decides whether it ends with white space.
pub EndsInk-join : (s : Text) (c : ℕ) (t : Text) → EndsInk t → EndsInk (s ++ c ∷ t)
EndsInk-join s c t h =
    (cons_append-ne-nil c s t, rw (← append_assoc s (c ∷ []) t) (rstrip-append (s ++ c ∷ []) t h))
