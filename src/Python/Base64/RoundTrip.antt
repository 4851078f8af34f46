-- ===== src/Python/Base64/RoundTrip.antt =====
-- `b64decode` undoes `b64encode`.
use mathlib.Core.Option
use tpm_attest.Prelude.{
  ℕ, ◌+◌, ◌*◌, ◌/◌, ◌%◌, ◌<◌, ◌≡◌, ◌≢◌, refl, true, some, [], ◌∷◌, arith, ltb, Text, Bytes, All,
  all, lt→ltb,
}
use tpm_attest.Python.Encode.{IsByte}
use tpm_attest.Python.Base64.{b64_char, b64_value, b64encode, decode_from, b64decode}

b64_value-char : (v : ℕ) → v < 64 → b64_value (b64_char v) ≡ some v
unfolding b64_value b64_char
b64_value-char v h = ground arith

b64_char-ne-pad : (v : ℕ) → v < 64 → b64_char v ≢ 61
unfolding b64_char
b64_char-ne-pad v h e = ground arith

b64_char-ascii : (v : ℕ) → v < 64 → b64_char v < 128
unfolding b64_char
b64_char-ascii v h = ground arith

module _ (v left pads : ℕ) (s : Text) (h : v < 64) where
  decode-first : decode_from 0 left pads (b64_char v ∷ s) ≡ decode_from 1 v 0 s
  unfolding decode_from
  decode-first = ground (arith, b64_value-char v h, b64_char-ne-pad v h)

  decode-second :
      decode_from 1 left pads (b64_char v ∷ s)
      ≡ Option.map (◌∷◌ (left * 4 + v / 16)) (decode_from 2 (v % 16) 0 s)
  unfolding decode_from
  decode-second = ground (arith, b64_value-char v h, b64_char-ne-pad v h)

  decode-third :
      decode_from 2 left pads (b64_char v ∷ s)
      ≡ Option.map (◌∷◌ (left * 16 + v / 4)) (decode_from 3 (v % 4) 0 s)
  unfolding decode_from
  decode-third = ground (arith, b64_value-char v h, b64_char-ne-pad v h)

  decode-fourth :
      decode_from 3 left pads (b64_char v ∷ s)
      ≡ Option.map (◌∷◌ (left * 64 + v)) (decode_from 0 0 0 s)
  unfolding decode_from
  decode-fourth = ground (arith, b64_value-char v h, b64_char-ne-pad v h)

-- the bytes that a group of four digits spells
group_bytes :
    (a b c : ℕ)
    → IsByte a
    → IsByte b
    → IsByte c
    → (a / 4 * 4 + (a % 4 * 16 + b / 16) / 16 ≡ a)
      × ((a % 4 * 16 + b / 16) % 16 * 16 + (b % 16 * 4 + c / 64) / 4 ≡ b)
      × ((b % 16 * 4 + c / 64) % 4 * 64 + c % 64 ≡ c)
group_bytes a b c p q r = (omega arith, omega arith, omega arith)

decode-pad_two : (left : ℕ) → decode_from 2 left 0 (61 ∷ 61 ∷ []) ≡ some []
unfolding decode_from
decode-pad_two left = refl

decode-pad_one : (left : ℕ) → decode_from 3 left 0 (61 ∷ []) ≡ some []
unfolding decode_from
decode-pad_one left = refl

decode-nil : decode_from 0 0 0 [] ≡ some []
unfolding decode_from
decode-nil = refl

decode_from-b64encode : (bs : Bytes) → All IsByte bs → decode_from 0 0 0 (b64encode bs) ≡ some bs
unfolding b64encode
decode_from-b64encode [] h = decode-nil
decode_from-b64encode (a ∷ []) h =
    let first : a / 4 * 4 + a % 4 * 16 / 16 ≡ a = omega arith in
    rw (
      decode-first (a / 4) 0 0 _ (omega arith),
      decode-second (a % 4 * 16) (a / 4) 0 _ (omega arith),
      decode-pad_two,
      first,
    )
decode_from-b64encode (a ∷ b ∷ []) h =
    let first : a / 4 * 4 + (a % 4 * 16 + b / 16) / 16 ≡ a = omega arith in
    let second : (a % 4 * 16 + b / 16) % 16 * 16 + b % 16 * 4 / 4 ≡ b = omega arith in
    rw (
      decode-first (a / 4) 0 0 _ (omega arith),
      decode-second (a % 4 * 16 + b / 16) (a / 4) 0 _ (omega arith),
      decode-third (b % 16 * 4) ((a % 4 * 16 + b / 16) % 16) 0 _ (omega arith),
      decode-pad_one,
      first,
      second,
    )
decode_from-b64encode (a ∷ b ∷ c ∷ bs) h =
    let (first, second, third) = group_bytes a b c h.0 h.1.0 h.1.1.0 in
    rw (
      decode-first (a / 4) 0 0 _ (omega arith),
      decode-second (a % 4 * 16 + b / 16) (a / 4) 0 _ (omega arith),
      decode-third (b % 16 * 4 + c / 64) ((a % 4 * 16 + b / 16) % 16) 0 _ (omega arith),
      decode-fourth (c % 64) ((b % 16 * 4 + c / 64) % 4) 0 _ (omega arith),
      decode_from-b64encode bs h.1.1.1,
      first,
      second,
      third,
    )

encoded-ascii : (bs : Bytes) → All IsByte bs → all (λ c. ltb c 128) (b64encode bs) ≡ true
unfolding b64encode
encoded-ascii [] h = refl
encoded-ascii (a ∷ []) h = rw (
  lt→ltb _ _ (b64_char-ascii (a / 4) (omega arith)),
  lt→ltb _ _ (b64_char-ascii (a % 4 * 16) (omega arith)),
)
encoded-ascii (a ∷ b ∷ []) h = rw (
  lt→ltb _ _ (b64_char-ascii (a / 4) (omega arith)),
  lt→ltb _ _ (b64_char-ascii (a % 4 * 16 + b / 16) (omega arith)),
  lt→ltb _ _ (b64_char-ascii (b % 16 * 4) (omega arith)),
)
encoded-ascii (a ∷ b ∷ c ∷ bs) h = rw (
  lt→ltb _ _ (b64_char-ascii (a / 4) (omega arith)),
  lt→ltb _ _ (b64_char-ascii (a % 4 * 16 + b / 16) (omega arith)),
  lt→ltb _ _ (b64_char-ascii (b % 16 * 4 + c / 64) (omega arith)),
  lt→ltb _ _ (b64_char-ascii (c % 64) (omega arith)),
  encoded-ascii bs h.1.1.1,
)

-- Decoding what was encoded gives the bytes back.
pub b64decode-b64encode : (bs : Bytes) → All IsByte bs → b64decode (b64encode bs) ≡ some bs
unfolding b64decode
b64decode-b64encode bs h = rw (encoded-ascii bs h, decode_from-b64encode bs h)
