-- ===== src/Base/Int.antt =====
-- Signed integers, as far as the tools print and parse them.
use Prim.Native.Nat.{ℕ, zero, suc, ◌+◌, ◌-◌, ◌*◌, ◌^◌}
use mathlib.Core.Bool.{◌&&◌}
use mathlib.Core.List.{[], ◌∷◌}
use mathlib.Core.Option.{Option, none, some}
use scaffolding.Base.Tests.{ltb, leb, eqb, if◌then◌else◌}
use scaffolding.Base.Results.{Result, ok, err, errorf}
use scaffolding.Base.Text.{Bytes, decimal}

-- `negsuc n` is -(n + 1).
pub data ℤ : Type 0 where
  pos : ℕ → ℤ
  negsuc : ℕ → ℤ

-- `fmt.Sprint` of an `int64`, and `%d`
unfoldable pub decimal_ℤ : ℤ → Bytes
unfolding decimal
decimal_ℤ (pos n) = decimal n
decimal_ℤ (negsuc n) = b'-' ∷ decimal (suc n)

-- The value of decimal digits, read after the value `n`.
unfoldable pub parse_digits : ℕ → Bytes → Option ℕ
parse_digits n [] = some n
parse_digits n (c ∷ s) =
    let rest = parse_digits (n * 10 + (c - b'0')) s in
    if leb b'0' c && leb c b'9' then rest else none

-- At least one digit.
unfoldable pub parse_uint : Bytes → Option ℕ
unfolding parse_digits
parse_uint [] = none
parse_uint (c ∷ s) = parse_digits 0 (c ∷ s)

unfoldable pub parse_unsigned : Option ℕ → Result ℤ
parse_unsigned none = err (errorf "invalid syntax")
parse_unsigned (some n) = if ltb n (2 ^ 63) then ok (pos n) else err (errorf "value out of range")

unfoldable pub parse_negative : Option ℕ → Result ℤ
parse_negative none = err (errorf "invalid syntax")
parse_negative (some zero) = ok (pos zero)
parse_negative (some (suc n)) =
    if ltb n (2 ^ 63) then ok (negsuc n) else err (errorf "value out of range")

-- `strconv.ParseInt` in base 10 with 64 bits
unfoldable pub parse_int64 : Bytes → Result ℤ
unfolding parse_uint parse_unsigned parse_negative
parse_int64 [] = err (errorf "invalid syntax")
parse_int64 (c ∷ s) =
    if eqb c b'-'
    then parse_negative (parse_uint s)
    else if eqb c b'+'
    then parse_unsigned (parse_uint s)
    else parse_unsigned (parse_uint (c ∷ s))
