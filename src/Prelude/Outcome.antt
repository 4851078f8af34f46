-- ===== src/Prelude/Outcome.antt =====
-- Python's exceptions as values.
use mathlib.Core.Bool.{Bool, true, false}
use mathlib.Core.Path.{◌≡◌}

-- The exception classes that the program raises or catches by name.
pub data Exception : Type 0 where
  runtime_error value_error index_error attribute_error type_error json_decode_error os_error
        integrity_error :
      Exception

-- what `except RuntimeError` catches
unfoldable pub is_runtime_error : Exception → Bool
is_runtime_error runtime_error = true
is_runtime_error _ = false

-- what `except ValueError` catches: the JSON reader's error is one
unfoldable pub is_value_error : Exception → Bool
is_value_error value_error = true
is_value_error json_decode_error = true
is_value_error _ = false

-- what `except json.JSONDecodeError` catches
unfoldable pub is_json_decode_error : Exception → Bool
is_json_decode_error json_decode_error = true
is_json_decode_error _ = false

-- what a call comes to: an exception, or the value that it returns
pub data Result {ℓ} (A : Type ℓ) : Type ℓ where
  raise : Exception → Result A
  ok : A → Result A

-- The first exception is that of the whole block.
infixl 5 ◌>>=◌
abbrev pub ◌>>=◌ {ℓ κ} :
    {Value : Type ℓ} {Next : Type κ} → Result Value → (Value → Result Next) → Result Next
raise exception >>= next = raise exception
ok value >>= next = next value

pub ok-injective {ℓ} : {A : Type ℓ} {a b : A} → ok a ≡ ok b → a ≡ b
ok-injective p = cc
