-- ===== src/Base/Text.antt =====
-- Go's `string` and `[]byte` as lists of byte values, and what the program uses of the packages
-- `strings`, `bytes` and `strconv`. A nil slice is the empty list.
use Prim.Native.Nat.{ℕ, zero, suc, ◌+◌, ◌/◌, ◌%◌}
use Prim.Native.Char.{code}
use Prim.Native.String.{String}
use mathlib.Core.Logic.{ite, ◌≢◌, inl, inr}
use native.Mathlib.Omega.{arith}
use mathlib.Core.Path.{◌≡◌, refl, ap₂}
use mathlib.Core.Bool.{Bool, true, false, ◌&&◌, ◌||◌}
use mathlib.Core.List.{List, [], ◌∷◌, map, reverse, head-eq_of_cons-eq, tail-eq_of_cons-eq}
use native.Mathlib.Decide.{ℕ_discrete}
use scaffolding.Base.Tests.{Bool-cases, ltb, leb, eqb, if◌then◌else◌}

abbrev pub Bytes : Type 0
Bytes = List ℕ

-- The bytes of an ASCII text.
abbrev pub codes : String → Bytes
codes String.[] = []
codes (String.◌∷◌ c s) = code c ∷ codes s

cons_dec :
    {c d : ℕ} {a b : Bytes} → Dec (c ≡ d) → Dec (a ≡ b) → Dec (◌≡◌ {A = Bytes} (c ∷ a) (d ∷ b))
cons_dec (yes p) (yes q) = yes (ap₂ ◌∷◌ p q)
cons_dec (yes p) (no n) = no (λ e. n (tail-eq_of_cons-eq e))
cons_dec (no n) q = no (λ e. n (head-eq_of_cons-eq e))

unfoldable pub bytes_dec : Discrete Bytes
unfolding ℕ_discrete cons_dec
bytes_dec [] [] = yes refl
bytes_dec [] (d ∷ b) = no (λ e. cc)
bytes_dec (c ∷ a) [] = no (λ e. cc)
bytes_dec (c ∷ a) (d ∷ b) = cons_dec (ℕ_discrete c d) (bytes_dec a b)

-- `bytes.Equal`, and `==` on strings
infix 50 ◌==◌
abbrev pub ◌==◌ : Bytes → Bytes → Bool
a == b = ite (bytes_dec a b) true false

-- `strings.HasPrefix`, the prefix last
unfoldable pub has_prefix : Bytes → Bytes → Bool
has_prefix s [] = true
has_prefix [] (c ∷ p) = false
has_prefix (d ∷ s) (c ∷ p) = eqb d c && has_prefix s p

-- `strings.Contains`
unfoldable pub contains : Bytes → Bytes → Bool
unfolding has_prefix
contains [] p = has_prefix [] p
contains (c ∷ s) p = has_prefix (c ∷ s) p || contains s p

-- `strings.HasSuffix`
unfoldable pub has_suffix : Bytes → Bytes → Bool
unfolding has_prefix
has_suffix s p = has_prefix (reverse s) (reverse p)

-- `strings.ToLower`, on ASCII letters; other bytes are left alone
unfoldable pub lower : ℕ → ℕ
lower c = if leb b'A' c && leb c b'Z' then c + 32 else c

abbrev pub to_lower : Bytes → Bytes
to_lower = map lower

-- `strconv.Itoa` and `fmt.Sprint` of a number that is not negative
unfoldable pub decimal_digits : ℕ → ℕ → Bytes → Bytes
decimal_digits zero n acc = acc
decimal_digits (suc f) n acc =
    let acc' : Bytes = (b'0' + n % 10) ∷ acc in
    let rest = decimal_digits f (n / 10) acc' in if ltb n 10 then acc' else rest

unfoldable pub decimal : ℕ → Bytes
unfolding decimal_digits
decimal n = decimal_digits (suc n) n []

pub ==-eq : (a b : Bytes) → (a == b) ≡ true → a ≡ b
==-eq a b h = ground arith

pub ==-ne : (a b : Bytes) → (a == b) ≡ false → a ≢ b
==-ne a b h = ground arith

pub ne-== : (a b : Bytes) → a ≢ b → (a == b) ≡ false
ne-== a b n = elim (Bool-cases (a == b)) [ inl e ↦ absurd (n (==-eq a b e)) | inr e ↦ e ]
