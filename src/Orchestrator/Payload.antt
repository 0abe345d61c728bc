-- ===== src/Orchestrator/Payload.antt =====
-- runtime_events.go: payloads of runtime events, which are decoded JSON, and how their fields are
-- read. A RateLimitSnapshot is an object like any other. Of a float64 the source reads its sign and
-- its whole part; `to_int64` stands for the conversion of a whole part that fits no int64, which Go
-- leaves to the implementation.
use aiops_platform.Common.{
  ℕ, ◌^◌, Bool, true, false, Option, none, some, List, [], ◌∷◌, Text, is_empty, text_eq, ltb, ◌==◌,
  ℤ, pos, negsuc, if◌then◌else◌, trim_space, parse_int,
}

mutual
  pub data Value : Type 0 where
    null : Value
    boolean : Bool → Value
    integer : ℤ → Value
    float : Bool → ℕ → Value
    text : Text → Value
    object : Fields → Value
    array : Items → Value

  pub data Fields : Type 0 where
    no_fields : Fields
    field : Text → Value → Fields → Fields

  pub data Items : Type 0 where
    no_items : Items
    item : Value → Items → Items

-- `m[key]`; a missing key reads as nil.
unfoldable pub get : Text → Fields → Value
get key no_fields = null
get key (field k v rest) = if text_eq k key then v else get key rest

abbrev pub as_string_map : Value → Option Fields
as_string_map (object m) = some m
as_string_map null = none
as_string_map (boolean b) = none
as_string_map (integer n) = none
as_string_map (float negative whole) = none
as_string_map (text s) = none
as_string_map (array items) = none

-- Reading a nil map.
abbrev pub fields_of : Option Fields → Fields
fields_of none = no_fields
fields_of (some m) = m

-- The loop of mapAtPath: the value at the path.
unfoldable pub value_at_path : Value → List Text → Option Value
value_at_path current [] = some current
value_at_path (object m) (key ∷ path) = value_at_path (get key m) path
value_at_path current (key ∷ path) = none

abbrev pub as_map : Option Value → Option Fields
as_map none = none
as_map (some v) = as_string_map v

unfoldable pub map_at_path : Fields → List Text → Option Fields
unfolding value_at_path
map_at_path m path = as_map (value_at_path (object m) path)

abbrev pub text_of : Value → Option Text
text_of (text s) = if is_empty s then none else some s
text_of null = none
text_of (boolean b) = none
text_of (integer n) = none
text_of (float negative whole) = none
text_of (object m) = none
text_of (array items) = none

unfoldable pub string_field : Fields → Text → Option Text
unfolding get
string_field m key = text_of (get key m)

abbrev pub bool_of : Value → Option Bool
bool_of (boolean b) = some b
bool_of null = none
bool_of (integer n) = none
bool_of (float negative whole) = none
bool_of (text s) = none
bool_of (object m) = none
bool_of (array items) = none

unfoldable pub bool_field : Fields → Text → Option Bool
unfolding get
bool_field m key = bool_of (get key m)

abbrev pub is_negative : ℤ → Bool
is_negative (pos n) = false
is_negative (negsuc n) = true

abbrev non_negative : ℤ → Option ℤ
non_negative n = if is_negative n then none else some n

abbrev parsed : Option ℤ → Option ℤ
parsed none = none
parsed (some n) = non_negative n

module _ (to_int64 : ℕ → ℤ) where
  abbrev pub whole_part : ℕ → ℤ
  whole_part whole = if ltb whole (2 ^ 63) then pos whole else to_int64 whole

  unfoldable pub integer_like : Value → Option ℤ
  integer_like (integer n) = non_negative n
  integer_like (float negative whole) = if negative then none else some (whole_part whole)
  integer_like (text s) = parsed (parse_int (trim_space s))
  integer_like null = none
  integer_like (boolean b) = none
  integer_like (object m) = none
  integer_like (array items) = none

  -- A positive integer.
  abbrev pub positive : Option ℤ → Option ℕ
  positive none = none
  positive (some (pos n)) = if n == 0 then none else some n
  positive (some (negsuc n)) = none

  unfoldable pub int_field : Fields → Text → Option ℕ
  unfolding integer_like get
  int_field m key = positive (integer_like (get key m))

  unfoldable pub number_field : Fields → List Text → Option ℤ
  unfolding integer_like get
  number_field m [] = none
  number_field m (key ∷ keys) =
      let later = number_field m keys in
      elim (integer_like (get key m)) [ none ↦ later | some n ↦ some n ]
