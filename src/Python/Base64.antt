-- ===== src/Python/Base64.antt =====
-- `base64.b64encode` and `base64.b64decode`, which skips what is no digit and raises on wrong padding.
pub mod RoundTrip
use tpm_attest.Prelude.{
  ℕ, zero, suc, ◌+◌, ◌-◌, ◌*◌, ◌/◌, ◌%◌, ◌<◌, ◌≡◌, ◌≢◌, refl, Bool, true, false, ◌&&◌, Option, none,
  some, List, [], ◌∷◌, arith, ◌==◌, ltb, leb, between, if◌then◌else◌, Text, Bytes, All, all,
}
use mathlib.Core.Option
use tpm_attest.Python.Encode.{IsByte}

unfoldable pub b64_char : ℕ → ℕ
b64_char v =
    if ltb v 26
    then 65 + v
    else if ltb v 52
    then 71 + v
    else if ltb v 62
    then v - 4
    else if v == 62
    then 43
    else 47

unfoldable pub b64_value : ℕ → Option ℕ
b64_value c =
    if between 65 90 c
    then some (c - 65)
    else if between 97 122 c
    then some (c - 71)
    else if between 48 57 c
    then some (c + 4)
    else if c == 43
    then some 62
    else if c == 47
    then some 63
    else none

-- the digits of a group, with "=" for those that are missing
unfoldable pub b64encode : Bytes → Text
unfolding b64_char
b64encode [] = []
b64encode (a ∷ []) = b64_char (a / 4) ∷ b64_char (a % 4 * 16) ∷ 61 ∷ 61 ∷ []
b64encode (a ∷ b ∷ []) =
    b64_char (a / 4) ∷ b64_char (a % 4 * 16 + b / 16) ∷ b64_char (b % 16 * 4) ∷ 61 ∷ []
b64encode (a ∷ b ∷ c ∷ bs) =
    b64_char (a / 4)
    ∷ b64_char (a % 4 * 16 + b / 16)
    ∷ b64_char (b % 16 * 4 + c / 64)
    ∷ b64_char (c % 64)
    ∷ b64encode bs

-- `quad` digits of the group are read, and `left` holds their bits that no byte has taken yet
unfoldable pub decode_from : ℕ → ℕ → ℕ → Text → Option Bytes
unfolding b64_value
decode_from quad left pads [] = if quad == 0 then some [] else none
decode_from quad left pads (c ∷ s) =
    if c == 61
    then (let stop = leb 2 quad && leb 4 (quad + (pads + 1)) in
        let more = decode_from quad left (if leb 2 quad then pads + 1 else pads) s in
        if stop then some [] else more)
    else elim (b64_value c) [
      | none ↦ decode_from quad left pads s
      | some v ↦
          if quad == 0
          then (let more = decode_from 1 v 0 s in more)
          else if quad == 1
          then (let more = Option.map (◌∷◌ (left * 4 + v / 16)) (decode_from 2 (v % 16) 0 s) in
              more)
          else if quad == 2
          then (let more = Option.map (◌∷◌ (left * 16 + v / 4)) (decode_from 3 (v % 4) 0 s) in more)
          else (let more = Option.map (◌∷◌ (left * 64 + v)) (decode_from 0 0 0 s) in more)
    ]

-- `none` where it raises; a text that is not ASCII is refused too
unfoldable pub b64decode : Text → Option Bytes
unfolding decode_from
b64decode s = if all (λ c. ltb c 128) s then decode_from 0 0 0 s else none
