-- ===== src/Base/Dict.antt =====
-- Go maps with string keys as association lists. The order of the entries is the order in which a
-- `range` loop meets them, so what is proved for every list holds for every order.
use mathlib.Core.Path.{◌≡◌, refl}
use mathlib.Core.Option.{Option, none, some}
use mathlib.Core.List.{List, [], ◌∷◌, ◌++◌}
use native.Mathlib.Omega.{arith}
use scaffolding.Base.Tests.{if◌then◌else◌}
use scaffolding.Base.Lists.{In}
use scaffolding.Base.Text.{Bytes, ◌==◌}

abbrev pub Dict {ℓ} : Type ℓ → Type ℓ
Dict V = List (Bytes × V)

module _ {ℓ} {V : Type ℓ} where
  -- `v, ok := m[k]`
  unfoldable pub lookup : Bytes → Dict V → Option V
  lookup k [] = none
  lookup k ((j, v) ∷ d) = if j == k then some v else lookup k d

  -- `m[k] = v`
  unfoldable pub insert : Bytes → V → Dict V → Dict V
  insert k v [] = (k, v) ∷ []
  insert k v ((j, w) ∷ d) = if j == k then (k, v) ∷ d else (j, w) ∷ insert k v d

  -- `delete(m, k)`
  unfoldable pub erase : Bytes → Dict V → Dict V
  erase k [] = []
  erase k ((j, w) ∷ d) = let rest = erase k d in if j == k then rest else (j, w) ∷ rest

  unfoldable pub keys : Dict V → List Bytes
  keys [] = []
  keys ((j, v) ∷ d) = j ∷ keys d

  pub lookup-insert :
      (k j : Bytes) (v : V) (d : Dict V)
      → lookup j (insert k v d) ≡ (if k == j then some v else lookup j d)
  unfolding lookup insert
  lookup-insert k j v [] = refl
  lookup-insert k j v ((i, w) ∷ d) = ground (arith, lookup-insert k j v d)

  pub lookup-erase :
      (k j : Bytes) (d : Dict V) → lookup j (erase k d) ≡ (if k == j then none else lookup j d)
  unfolding lookup erase
  lookup-erase k j [] = ground arith
  lookup-erase k j ((i, w) ∷ d) = ground (arith, lookup-erase k j d)

  pub lookup-nil : (k : Bytes) → lookup k [] ≡ none
  unfolding lookup
  lookup-nil k = refl

  pub In-keys : (k : Bytes) (v : V) (d : Dict V) → lookup k d ≡ some v → In k (keys d)
  unfolding lookup keys
  In-keys k v [] h = cc
  In-keys k v ((j, w) ∷ d) h = ground (arith, In-keys k v d)

module _ {ℓ} {V : Type ℓ} where
  -- A new key goes to the end.
  pub insert_fresh :
      (k : Bytes) (v : V) (d : Dict V) → lookup k d ≡ none → insert k v d ≡ d ++ ((k, v) ∷ [])
  unfolding lookup insert
  insert_fresh k v [] h = refl
  insert_fresh k v ((j, w) ∷ d) h = ground (arith, insert_fresh k v d)

  pub lookup-append_none :
      (k : Bytes) (d e : Dict V) → lookup k d ≡ none → lookup k (d ++ e) ≡ lookup k e
  unfolding lookup
  lookup-append_none k [] e h = refl
  lookup-append_none k ((j, w) ∷ d) e h = ground (arith, lookup-append_none k d e)

pub ruleset dict_laws = (lookup-nil, lookup-insert, lookup-erase)

-- `m[k]` where a missing key reads as the nil slice
abbrev pub or_nil : Option Bytes → Bytes
or_nil none = []
or_nil (some v) = v

abbrev pub index : Dict Bytes → Bytes → Bytes
index d k = or_nil (lookup k d)
