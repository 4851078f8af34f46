-- ===== src/Agent/Pcr.antt =====
-- Reading the PCRs (agent/pcr_reader.py). What tpm2_pcrread prints is an argument.
pub mod Digest
pub mod Bank
use tpm_attest.Prelude.{
  ℕ, ◌+◌, ◌*◌, ◌-◌, Bool, true, false, not, ◌&&◌, ◌||◌, Option, none, some, List, [], ◌∷◌, map,
  ◌==◌, between, if◌then◌else◌, is_empty, any, all, Text, Result, ok, raise, runtime_error,
  value_error, ltb, length, ◌>>=◌,
}
use tpm_attest.Python.Int.{is_zero}
use tpm_attest.Python.Process.{Ran, completed}
use tpm_attest.Python.Split.{is_space, lstrip, splitlines}
use tpm_attest.Python.Unicode.{Unicode}
use tpm_attest.Agent.Log.{Completed}

-- `_PCR_INDICES`
abbrev pub pcr_indices : List ℕ
pcr_indices = 0 ∷ 1 ∷ 4 ∷ 7 ∷ 9 ∷ 10 ∷ []

-- `sys.get_int_max_str_digits()`: `int` reads no more decimal digits
abbrev pub max_str_digits : ℕ
max_str_digits = 4300

-- a dict from PCR index to digest, in the order of insertion
abbrev pub Pcrs : Type 0
Pcrs = List (ℕ × Text)

-- `[0-9A-Fa-f]`
abbrev pub is_hex : ℕ → Bool
is_hex c = between 48 57 c || between 65 70 c || between 97 102 c

-- `str.upper` on the letters that the pattern lets through
abbrev pub upper_point : ℕ → ℕ
upper_point c = if between 97 122 c then c - 32 else c

-- `.replace("0X", "0x")`
unfoldable pub replace_prefix : Text → Text
replace_prefix [] = []
replace_prefix (c ∷ []) = c ∷ []
replace_prefix (c ∷ d ∷ s) =
    let pair = replace_prefix s in
    let step = replace_prefix (d ∷ s) in if c == 48 && d == 88 then 48 ∷ 120 ∷ pair else c ∷ step

-- the characters in front of the first that fails the test, and the rest
unfoldable pub span : (ℕ → Bool) → Text → Text × Text
span p [] = ([], [])
span p (c ∷ s) = let (taken, rest) = span p s in if p c then (c ∷ taken, rest) else ([], c ∷ s)

-- `0x[0-9A-Fa-f]+\s*$`
unfoldable pub match_digest : Text → Option Text
unfolding span lstrip
match_digest (c ∷ x ∷ s) =
    let (digits, rest) = span is_hex s in
    if (c == 48 && x == 120) && (not (is_empty digits) && is_empty (lstrip rest))
    then some (c ∷ x ∷ digits)
    else none
match_digest _ = none

-- `m.group(2).upper().replace("0X", "0x")`
unfoldable pub normalize : ℕ → Option Text → Option (ℕ × Text)
unfolding replace_prefix
normalize index none = none
normalize index (some digest) = some (index, replace_prefix (map upper_point digest))

-- `:\s*` and the digest
unfoldable pub match_colon : ℕ → Text → Option (ℕ × Text)
unfolding normalize match_digest lstrip
match_colon index [] = none
match_colon index (c ∷ s) = if c == 58 then normalize index (match_digest (lstrip s)) else none

module _ (u : Unicode) where
  -- `\d`, with its value
  unfoldable pub digit : ℕ → Option ℕ
  digit c = if between 48 57 c then some (c - 48) else u.decimal c

  unfoldable pub is_digit : ℕ → Bool
  unfolding digit
  is_digit c = elim (digit c) [ none ↦ false | some d ↦ true ]

  -- `int` of digits
  unfoldable pub value_of : ℕ → Text → ℕ
  unfolding digit
  value_of acc [] = acc
  value_of acc (c ∷ s) = value_of (10 * acc + elim (digit c) [ none ↦ 0 | some d ↦ d ]) s

  -- `(\d+)` and the rest of the pattern
  unfoldable pub match_index : Text → Option (ℕ × Text)
  unfolding is_digit value_of span match_colon lstrip
  match_index s =
      let (digits, rest) = span is_digit s in
      if is_empty digits then none else match_colon (value_of 0 digits) (lstrip rest)

  -- `_PCR_LINE_RE.match(line)`, with the index and the digest as the loop uses them
  unfoldable pub match_line : Text → Option (ℕ × Text)
  unfolding match_index is_space lstrip
  match_line [] = none
  match_line (c ∷ s) = if is_space c then match_index (lstrip s) else none

-- `pcrs[index] = digest`
unfoldable pub put : ℕ → Text → Pcrs → Pcrs
put i d [] = (i, d) ∷ []
put i d ((j, e) ∷ m) = let rest = put i d m in if j == i then (i, d) ∷ m else (j, e) ∷ rest

abbrev pub has_key : ℕ → Pcrs → Bool
has_key i m = any (λ p. p.0 == i) m

-- `index in _PCR_INDICES`
abbrev pub is_wanted : ℕ → Bool
is_wanted i = any (λ j. j == i) pcr_indices

-- the body of the loop, with what the pattern found in the line
unfoldable pub step : Option (ℕ × Text) → Pcrs → Pcrs
unfolding put
step none pcrs = pcrs
step (some (index, digest)) pcrs = if is_wanted index then put index digest pcrs else pcrs

module _ (u : Unicode) where
  -- the loop over the lines
  unfoldable pub collect : List Text → Pcrs → Pcrs
  unfolding match_line step
  collect [] pcrs = pcrs
  collect (line ∷ lines) pcrs = collect lines (step (match_line u line) pcrs)

  -- The pattern finds an index in the line that `int` refuses to read: a ValueError.
  unfoldable pub has_long_index : Text → Bool
  unfolding match_line is_digit span lstrip
  has_long_index line = elim (match_line u line) [
    | none ↦ false
    | some found ↦ ltb max_str_digits (length (span (is_digit u) (lstrip line)).0)
  ]

  -- What follows the run; the loop ends early at the first index that is too long, and `missing` is
  -- empty.
  unfoldable pub scan_pcrs : Completed → Result Pcrs
  unfolding collect has_long_index
  scan_pcrs result =
      let lines = splitlines result.stdout in
      let pcrs = collect lines [] in
      if is_zero result.returncode
      then (if any has_long_index lines
          then raise value_error
          else (if all (λ i. has_key i pcrs) pcr_indices then ok pcrs else raise runtime_error))
      else raise runtime_error

  unfoldable pub read_pcrs : Ran Completed → Result Pcrs
  unfolding scan_pcrs completed
  read_pcrs run = do result ← completed run; scan_pcrs result
