-- ===== src/Common/Int.antt =====
-- Go's signed durations, as far as the source reads them: their sign, and what is positive of them.
use Prim.Native.Nat.{ℕ, zero, suc, ◌+◌, ◌*◌, ◌-◌, ◌^◌}
use mathlib.Core.Bool.{Bool, false, ◌&&◌}
use mathlib.Core.Option.{Option, none, some}
use mathlib.Core.List.{[], ◌∷◌}
use aiops_platform.Common.Tests.{◌==◌, ltb, leb, if◌then◌else◌}
use aiops_platform.Common.Strings.{Text}

-- `negsuc n` is -(n + 1).
pub data ℤ : Type 0 where
  pos : ℕ → ℤ
  negsuc : ℕ → ℤ

abbrev pub pos_part : ℤ → ℕ
pos_part (pos n) = n
pos_part (negsuc n) = 0

abbrev pub is_zero : ℤ → Bool
is_zero (pos n) = n == 0
is_zero (negsuc n) = false

-- strconv.ParseInt in base 10 and with 64 bits: a sign or none, then one digit or more, and nothing
-- that is out of range.
unfoldable pub digits_value : ℕ → Text → Option ℕ
digits_value acc [] = some acc
digits_value acc (c ∷ s) =
    let rest = digits_value (acc * 10 + (c - b'0')) s in
    if leb b'0' c && leb c b'9' then rest else none

unfoldable pub unsigned_value : Text → Option ℕ
unfolding digits_value
unsigned_value [] = none
unsigned_value (c ∷ s) = digits_value 0 (c ∷ s)

abbrev negative_of : ℕ → ℤ
negative_of zero = pos zero
negative_of (suc n) = negsuc n

abbrev positive_int : Option ℕ → Option ℤ
positive_int none = none
positive_int (some n) = if ltb n (2 ^ 63) then some (pos n) else none

abbrev negative_int : Option ℕ → Option ℤ
negative_int none = none
negative_int (some n) = if leb n (2 ^ 63) then some (negative_of n) else none

unfoldable pub parse_int : Text → Option ℤ
unfolding unsigned_value
parse_int [] = none
parse_int (c ∷ s) =
    if c == b'-'
    then negative_int (unsigned_value s)
    else if c == b'+'
    then positive_int (unsigned_value s)
    else positive_int (unsigned_value (c ∷ s))
