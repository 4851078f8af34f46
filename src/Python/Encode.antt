-- ===== src/Python/Encode.antt =====
-- `str.encode()` and `bytes.hex()`.
use tpm_attest.Prelude.{
  ℕ, ◌+◌, ◌*◌, ◌/◌, ◌%◌, ◌<◌, ◌≡◌, ◌≢◌, refl, sym, [], ◌∷◌, ◌++◌, arith, ltb, if◌then◌else◌, Text,
  Bytes, All, length, append_assoc,
}

-- UTF-8, for a code point that is no surrogate
unfoldable pub utf8_char : ℕ → Bytes
utf8_char c =
    if ltb c 0x80
    then c ∷ []
    else if ltb c 0x800
    then (0xc0 + c / 64) ∷ (0x80 + c % 64) ∷ []
    else if ltb c 0x10000
    then (0xe0 + c / 4096) ∷ (0x80 + c / 64 % 64) ∷ (0x80 + c % 64) ∷ []
    else (0xf0 + c / 262144) ∷ (0x80 + c / 4096 % 64) ∷ (0x80 + c / 64 % 64) ∷ (0x80 + c % 64) ∷ []

unfoldable pub encode : Text → Bytes
unfolding utf8_char
encode [] = []
encode (c ∷ s) = utf8_char c ++ encode s

abbrev pub IsCodePoint : ℕ → Type 0
IsCodePoint c = c < 0x110000

utf8_char-split :
    (c d : ℕ) (s t : Bytes)
    → IsCodePoint c
    → IsCodePoint d
    → utf8_char c ++ s ≡ utf8_char d ++ t
    → (c ≡ d) × (s ≡ t)
unfolding utf8_char
utf8_char-split c d s t p q e = ground arith

utf8_char-ne-nil : (c : ℕ) (s : Bytes) → utf8_char c ++ s ≢ []
unfolding utf8_char
utf8_char-ne-nil c s e = ground arith

-- Different texts are encoded differently.
pub encode-injective :
    (s t : Text) → All IsCodePoint s → All IsCodePoint t → encode s ≡ encode t → s ≡ t
unfolding encode
encode-injective [] [] p q e = refl
encode-injective [] (d ∷ t) p q e = absurd (utf8_char-ne-nil d (encode t) (sym e))
encode-injective (c ∷ s) [] p q e = absurd (utf8_char-ne-nil c (encode s) e)
encode-injective (c ∷ s) (d ∷ t) p q e =
    let (h, r) = utf8_char-split c d (encode s) (encode t) p.0 q.0 e in
    cc (h, encode-injective s t p.1 q.1 r)

pub encode-append : (s t : Text) → encode (s ++ t) ≡ encode s ++ encode t
unfolding encode
encode-append [] t = refl
encode-append (c ∷ s) t = rw (encode-append s t, append_assoc)

pub encode-ascii : (s : Text) → All (λ c. c < 128) s → encode s ≡ s
unfolding encode utf8_char
encode-ascii [] h = refl
encode-ascii (c ∷ s) h = ground (arith, encode-ascii s)

hex_digit : ℕ → ℕ
hex_digit n = if ltb n 10 then 48 + n else 87 + n

unfoldable pub hex : Bytes → Text
unfolding hex_digit
hex [] = []
hex (b ∷ bs) = hex_digit (b / 16) ∷ hex_digit (b % 16) ∷ hex bs

pub length-hex : (bs : Bytes) → length (hex bs) ≡ 2 * length bs
unfolding hex
length-hex [] = omega arith
length-hex (b ∷ bs) = omega (arith, length-hex bs)

abbrev pub IsByte : ℕ → Type 0
IsByte b = b < 256

hex_digit-injective : (m n : ℕ) → m < 16 → n < 16 → hex_digit m ≡ hex_digit n → m ≡ n
unfolding hex_digit
hex_digit-injective m n p q e = ground arith

pub hex-injective : (s t : Bytes) → All IsByte s → All IsByte t → hex s ≡ hex t → s ≡ t
unfolding hex
hex-injective [] [] p q e = refl
hex-injective [] (d ∷ t) p q e = absurd (cc)
hex-injective (c ∷ s) [] p q e = absurd (cc)
hex-injective (c ∷ s) (d ∷ t) p q e = ground (
  arith,
  hex_digit-injective (c / 16) (d / 16),
  hex_digit-injective (c % 16) (d % 16),
  hex-injective s t,
)
