-- ===== src/Secret/Fill.antt =====
-- The loop of `ReconcileSecret` over the wanted keys.
use scaffolding.Base.{
  ◌≡◌, refl, Bytes, Bool, true, false, Option, none, some, List, [], ◌∷◌, arith, ok, panic, ◌==◌,
  if◌then◌else◌, ◌||◌, not, Bool-cases, inl, inr,
}
use scaffolding.Base.Dict.{Dict, index, lookup, insert, lookup-insert}
use scaffolding.Cluster.{contents}
use scaffolding.Secret.{fill}

abbrev pub holds_key : Bytes → List Bytes → Bool
holds_key k [] = false
holds_key k (j ∷ ks) = j == k || holds_key k ks

-- What the entries read as afterwards: the wanted value at each key of the loop.
pub index-fill :
    (wanted : Dict Bytes) (ks : List Bytes) (entries : Option (Dict Bytes)) (update : Bool)
    → (entries' : Option (Dict Bytes)) (update' : Bool) (k : Bytes)
    → fill wanted ks entries update ≡ ok (entries', update')
    → index (contents entries') k
      ≡ (if holds_key k ks then index wanted k else index (contents entries) k)
unfolding fill
index-fill wanted [] entries update entries' update' k h = ground arith
index-fill wanted (j ∷ ks) none update entries' update' k h =
    ground (arith, index-fill wanted ks none update entries' update' k)
index-fill wanted (j ∷ ks) (some d) update entries' update' k h = ground (
  arith,
  index-fill wanted ks (some d) update entries' update' k,
  index-fill wanted ks (some (insert j (index wanted j) d)) true entries' update' k,
  lookup-insert j k (index wanted j) d,
)

-- Without an update the entries are the old ones, and read as wanted at each key of the loop.
pub fill_same :
    (wanted : Dict Bytes) (ks : List Bytes) (entries : Option (Dict Bytes)) (update : Bool)
    → (entries' : Option (Dict Bytes)) → fill wanted ks entries update ≡ ok (entries', false)
    → (update ≡ false) × (entries' ≡ entries)
unfolding fill
fill_same wanted [] entries update entries' h = ground arith
fill_same wanted (j ∷ ks) none update entries' h =
    ground (arith, fill_same wanted ks none update entries')
fill_same wanted (j ∷ ks) (some d) update entries' h = ground (
  arith,
  fill_same wanted ks (some d) update entries',
  fill_same wanted ks (some (insert j (index wanted j) d)) true entries',
)

-- Where every key reads as wanted the loop changes nothing.
pub fill_done :
    (wanted : Dict Bytes) (ks : List Bytes) (entries : Option (Dict Bytes)) (update : Bool)
    → ((k : Bytes) → holds_key k ks ≡ true → index (contents entries) k ≡ index wanted k)
    → fill wanted ks entries update ≡ ok (entries, update)
unfolding fill
fill_done wanted [] entries update h = refl
fill_done wanted (j ∷ ks) entries update h =
    ground (arith, h j, fill_done wanted ks entries update (λ k m. h k (ground arith)))

-- Some key of the loop is to be set to a value that is not empty.
abbrev pub sets_any : Dict Bytes → List Bytes → Bool
sets_any wanted [] = false
sets_any wanted (k ∷ ks) = not (index wanted k == []) || sets_any wanted ks

-- On a nil map the loop panics exactly when it has a value to set.
pub fill-none :
    (wanted : Dict Bytes) (ks : List Bytes) (update : Bool)
    → fill wanted ks none update
      ≡ (if sets_any wanted ks then panic "assignment to entry in nil map" else ok (none, update))
unfolding fill lookup
fill-none wanted [] update = refl
fill-none wanted (j ∷ ks) update = ground (arith, fill-none wanted ks update)

-- On any other map it does not panic.
pub fill-some :
    (wanted : Dict Bytes) (ks : List Bytes) (d : Dict Bytes) (update : Bool)
    → (d' : Dict Bytes) × (update' : Bool) × (fill wanted ks (some d) update
        ≡ ok (some d', update'))
unfolding fill
fill-some wanted [] d update = (d, update, refl)
fill-some wanted (j ∷ ks) d update = elim (Bool-cases (index wanted j == index d j)) [
  | inl e ↦ let (d', u, h) = fill-some wanted ks d update in (d', u, ground arith)
  | inr e ↦
      let (d', u, h) = fill-some wanted ks (insert j (index wanted j) d) true in
      (d', u, ground arith)
]
