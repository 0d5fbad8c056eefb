-- ===== src/Base/Substring.antt =====
-- What `strings.HasPrefix` and `strings.Contains` decide.
use mathlib.Core.Path.{◌≡◌, refl, ap}
use mathlib.Core.Logic.{inl, inr, ◌≢◌}
use mathlib.Core.Bool.{true}
use mathlib.Core.List.{[], ◌∷◌, ◌++◌}
use Prim.Native.Nat.{ℕ}
use native.Mathlib.Omega.{arith}
use scaffolding.Base.Tests.{Bool-cases}
use scaffolding.Base.Text.{Bytes, has_prefix, contains}

pub has_prefix-split : (s p : Bytes) → has_prefix s p ≡ true → (t : Bytes) × (s ≡ p ++ t)
unfolding has_prefix
has_prefix-split s [] h = (s, refl)
has_prefix-split [] (c ∷ p) h = absurd (cc)
has_prefix-split (d ∷ s) (c ∷ p) h =
    let (t, e) = has_prefix-split s p (ground arith) in (t, ground arith)

pub has_prefix-append : (p t : Bytes) → has_prefix (p ++ t) p ≡ true
unfolding has_prefix
has_prefix-append [] t = refl
has_prefix-append (c ∷ p) t = ground (arith, has_prefix-append p t)

pub contains-split : (s p : Bytes) → contains s p ≡ true → (a b : Bytes) × (s ≡ a ++ (p ++ b))
unfolding contains
contains-split [] p h = let (t, e) = has_prefix-split [] p h in ([], t, e)
contains-split (c ∷ s) p h = elim (Bool-cases (has_prefix (c ∷ s) p)) [
  | inl e ↦ let (t, q) = has_prefix-split (c ∷ s) p e in ([], t, q)
  | inr e ↦ let (a, b, q) = contains-split s p (ground arith) in (c ∷ a, b, ap (λ x. c ∷ x) q)
]

pub contains-append : (a p b : Bytes) → contains (a ++ (p ++ b)) p ≡ true
unfolding contains
contains-append [] [] [] = refl
contains-append [] [] (c ∷ b) = refl
contains-append [] (c ∷ p) b = ground (arith, has_prefix-append (c ∷ p) b)
contains-append (c ∷ a) p b = ground (arith, contains-append a p b)

-- A text that does not begin with the first byte of what is looked for may lose its first byte.
pub contains-skip : (c d : ℕ) (s p : Bytes) → c ≢ d → contains (c ∷ s) (d ∷ p) ≡ contains s (d ∷ p)
unfolding contains
contains-skip c d s p h = ground arith
