-- ===== src/Base/Decimal.antt =====
-- Decimal numerals: a number is read back from its digits, so numbered names differ.
use scaffolding.Base.Tests.{Bool-cases, ltb}
use scaffolding.Base.Text.{Bytes, decimal, decimal_digits}
use Prim.Native.Nat.{ℕ, zero, suc, ◌+◌, ◌-◌, ◌*◌, ◌/◌, ◌%◌, ◌<◌}
use mathlib.Core.Path.{◌≡◌, sym, ap, ◌∙◌}
use mathlib.Core.Logic.{inl, inr}
use mathlib.Core.List.{[], ◌∷◌}
use native.Mathlib.Omega.{arith}

value : ℕ → Bytes → ℕ
value v [] = v
value v (c ∷ cs) = value (v * 10 + (c - b'0')) cs

value-decimal_digits :
    (f n : ℕ) (acc : Bytes) → n < f → value 0 (decimal_digits f n acc) ≡ value n acc
unfolding value decimal_digits
value-decimal_digits zero n acc h = absurd (omega arith)
value-decimal_digits (suc f) n acc h = elim (Bool-cases (ltb n 10)) [
  | inl e ↦
      let q : 0 * 10 + (b'0' + n % 10 - b'0') ≡ n = ground arith in rw e (ap (λ v. value v acc) q)
  | inr e ↦
      let q : n / 10 * 10 + (b'0' + n % 10 - b'0') ≡ n = ground arith in
      rw e (
        value-decimal_digits f (n / 10) ((b'0' + n % 10) ∷ acc) (ground arith)
        ∙ ap (λ v. value v acc) q)
]

value-decimal : (n : ℕ) → value 0 (decimal n) ≡ n
unfolding decimal value
value-decimal n = value-decimal_digits (suc n) n [] (omega arith)

pub decimal_inj : (m n : ℕ) → decimal m ≡ decimal n → m ≡ n
decimal_inj m n e = sym (value-decimal m) ∙ ap (value 0) e ∙ value-decimal n
