-- ===== src/Python/Json.antt =====
-- The values that json.loads returns, and what the program asks of them.
use tpm_attest.Prelude.{
  ℕ, suc, Bool, true, false, not, Text, text_eq, is_empty, length, if◌then◌else◌, Result, ok, raise,
  attribute_error, type_error,
}

-- a number is its literal, and whether it is other than 0
mutual
  pub data Json : Type 0 where
    null : Json
    boolean : Bool → Json
    number : Text → Bool → Json
    string : Text → Json
    array : Items → Json
    object : Fields → Json

  pub data Items : Type 0 where
    nil : Items
    item : Json → Items → Items

  pub data Fields : Type 0 where
    end : Fields
    field : Text → Json → Fields → Fields

unfoldable pub count_items : Items → ℕ
count_items nil = 0
count_items (item j items) = suc (count_items items)

unfoldable pub count_fields : Fields → ℕ
count_fields end = 0
count_fields (field k j fields) = suc (count_fields fields)

-- `fields.get(key, default)`
unfoldable pub get_field : Text → Json → Fields → Json
get_field key default end = default
get_field key default (field k j fields) =
    let rest = get_field key default fields in if text_eq key k then j else rest

-- `value.get(key, default)`: only a dict has the method
unfoldable pub get : Text → Json → Json → Result Json
unfolding get_field
get key default (object fields) = ok (get_field key default fields)
get key default _ = raise attribute_error

-- `bool(value)`
unfoldable pub truthy : Json → Bool
unfolding count_items count_fields
truthy null = false
truthy (boolean b) = b
truthy (number literal nonzero) = nonzero
truthy (string s) = not (is_empty s)
truthy (array nil) = false
truthy (array (item j items)) = true
truthy (object end) = false
truthy (object (field k j fields)) = true

-- `len(value)`
unfoldable pub len : Json → Result ℕ
unfolding count_items count_fields
len (string s) = ok (length s)
len (array items) = ok (count_items items)
len (object fields) = ok (count_fields fields)
len _ = raise type_error

-- `value is True`
unfoldable pub is_true : Json → Bool
is_true (boolean b) = b
is_true _ = false
