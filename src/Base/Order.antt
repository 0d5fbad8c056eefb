-- ===== src/Base/Order.antt =====
-- The order of Go strings, by bytes: a strict total order.
use Prim.Native.Nat.{compare, Ordering}
use mathlib.Core.Path.{◌≡◌, refl}
use mathlib.Core.Logic.{◌⊎◌, inl, inr, ◌≢◌}
use mathlib.Core.Bool.{Bool, true, false}
use mathlib.Core.List.{[], ◌∷◌}
use native.Mathlib.Omega.{arith}
use scaffolding.Base.Text.{Bytes}

-- `a < b`
unfoldable pub less : Bytes → Bytes → Bool
less a [] = false
less [] (d ∷ b) = true
less (c ∷ a) (d ∷ b) =
    let rest = less a b in
    elim (compare c d) [ Ordering.lt ↦ true | Ordering.eq ↦ rest | Ordering.gt ↦ false ]

pub less_asym : (a b : Bytes) → less a b ≡ true → less b a ≡ false
unfolding less
less_asym a [] h = cc
less_asym [] (d ∷ b) h = refl
less_asym (c ∷ a) (d ∷ b) h = ground (arith, less_asym a b)

pub less_total : (a b : Bytes) → a ≢ b → less a b ≡ false → less b a ≡ true
unfolding less
less_total [] [] n h = absurd (n refl)
less_total (c ∷ a) [] n h = refl
less_total [] (d ∷ b) n h = cc
less_total (c ∷ a) (d ∷ b) n h = ground (arith, less_total a b)

-- What lies between is below or above any third string.
pub less_split : (a b c : Bytes) → less a b ≡ true → (less a c ≡ true) ⊎ (less c b ≡ true)
unfolding less
less_split a [] c h = cc
less_split [] (d ∷ b) [] h = inr refl
less_split [] (d ∷ b) (e ∷ c) h = inl refl
less_split (x ∷ a) (d ∷ b) [] h = inr refl
less_split (x ∷ a) (d ∷ b) (e ∷ c) h = ground (arith, less_split a b c)

pub less_irrefl : (a : Bytes) → less a a ≡ false
unfolding less
less_irrefl [] = refl
less_irrefl (c ∷ a) = ground (arith, less_irrefl a)
