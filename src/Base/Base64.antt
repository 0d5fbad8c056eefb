-- ===== src/Base/Base64.antt =====
-- `base64.StdEncoding.EncodeToString`
use Prim.Native.Nat.{ℕ, ◌+◌, ◌-◌, ◌*◌, ◌/◌, ◌%◌}
use mathlib.Core.List.{[], ◌∷◌}
use scaffolding.Base.Tests.{ltb, eqb, if◌then◌else◌}
use scaffolding.Base.Text.{Bytes}

-- The character of six bits.
unfoldable pub digit : ℕ → ℕ
digit n =
    if ltb n 26
    then b'A' + n
    else if ltb n 52
    then b'a' + (n - 26)
    else if ltb n 62
    then b'0' + (n - 52)
    else if eqb n 62
    then b'+'
    else b'/'

-- Three bytes make four characters; one or two bytes at the end are filled up.
unfoldable pub encode_to_string : Bytes → Bytes
unfolding digit
encode_to_string [] = []
encode_to_string (a ∷ []) = digit (a / 4) ∷ digit (a % 4 * 16) ∷ b'=' ∷ b'=' ∷ []
encode_to_string (a ∷ b ∷ []) =
    digit (a / 4) ∷ digit (a % 4 * 16 + b / 16) ∷ digit (b % 16 * 4) ∷ b'=' ∷ []
encode_to_string (a ∷ b ∷ c ∷ rest) =
    digit (a / 4)
    ∷ digit (a % 4 * 16 + b / 16)
    ∷ digit (b % 16 * 4 + c / 64)
    ∷ digit (c % 64)
    ∷ encode_to_string rest
