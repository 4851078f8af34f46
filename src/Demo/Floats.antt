-- ===== src/Demo/Floats.antt =====
-- Python's `float` as an argument: its operations, and the laws of its order (demo_game/game.py).
use tpm_attest.Prelude.{ℕ, ◌^◌, ◌<◌, ◌≡◌, Bool, true, false, if◌then◌else◌, ltb}
use tpm_attest.Python.Int.{ℤ, pos}

-- `literal m k` is the constant m / 10 ** k.
pub record Floats : Type 1 where
  pub Float : Type 0
  pub of_int : ℤ → Float
  pub literal : ℕ → ℕ → Float
  pub add : Float → Float → Float
  pub sub : Float → Float → Float
  pub mul : Float → Float → Float
  pub negate : Float → Float
  pub absolute : Float → Float
  pub lt : Float → Float → Bool

-- `<` is a strict order, NaN included, and integers are exact up to 2 ** 53.
pub record IsOrdered (fl : Floats) : Type 0 where
  pub lt_irrefl : (a : fl.Float) → fl.lt a a ≡ false
  pub lt_asymm : (a b : fl.Float) → fl.lt a b ≡ true → fl.lt b a ≡ false
  pub lt-of_int :
      (m n : ℕ) → m < 2 ^ 53 → n < 2 ^ 53 → fl.lt (fl.of_int (pos m)) (fl.of_int (pos n)) ≡ ltb m n

module _ (fl : Floats) where
  -- `min(a, b)`: the first, unless the second is smaller
  unfoldable pub min_of : fl.Float → fl.Float → fl.Float
  min_of a b = if fl.lt b a then b else a

  -- `max(a, b)`: the first, unless the second is larger
  unfoldable pub max_of : fl.Float → fl.Float → fl.Float
  max_of a b = if fl.lt a b then b else a
