-- ===== src/Secret/Replay.antt =====
-- A sequence of calls of `ReconcileSecret`, against a map of maps that is updated.
use scaffolding.Base.{
  ◌≡◌, refl, sym, ap, ◌∙◌, subst, inl, inr, Bytes, Bool-cases, List, [], ◌∷◌, ok, ==-eq, ==-ne,
  ◌==◌, if◌then◌else◌,
}
use scaffolding.Base.Dict.{Dict, index, keys}
use scaffolding.Cluster.{
  SecretInterface, IsLawful, Exec, ◌>>◌, lift, continue-ok, Got, found, not_found, failed,
}
use scaffolding.Secret.{reconcile_secret}
use scaffolding.Secret.Fill.{holds_key}
use scaffolding.Secret.Effects.{Shows, overlay, stored, reconcile_secret-Shows}
use scaffolding.Secret.Outcomes.{reconcile_secret_frame}

-- The arguments of one call.
pub record Wanted : Type 0 where
  pub name : Bytes
  pub namespace : Bytes
  pub entries : Dict Bytes

-- What is read under each name and key, a missing entry as the empty text.
abbrev pub View : Type 0
View = Bytes → Bytes → Bytes

-- One call: the wanted entries of its secret get their values, and nothing else changes.
abbrev pub write : Wanted → View → View
write w v n k =
    if w.name == n then if holds_key k (keys w.entries) then index w.entries k else v n k else v n k

abbrev pub replay : List Wanted → View → View
replay [] v = v
replay (w ∷ ws) v = replay ws (write w v)

module _ (S : SecretInterface) where
  abbrev pub view : S.State → View
  view σ n k = index (stored (S.get n σ)) k

  abbrev pub reconcile_all : List Wanted → Exec S.State (Unit {0})
  reconcile_all [] = lift (ok tt)
  reconcile_all (w ∷ ws) = reconcile_secret S w.name w.namespace w.entries >> reconcile_all ws

Shows-stored : (f : Bytes → Bytes) (g : Got) → Shows f g → (k : Bytes) → index (stored g) k ≡ f k
Shows-stored f (found t) h k = h k
Shows-stored f not_found h k = absurd h
Shows-stored f (failed e) h k = absurd h

module _ (S : SecretInterface) (law : IsLawful S) where
  reconcile_secret-read :
      (w : Wanted) (σ : S.State)
      → (reconcile_secret S w.name w.namespace w.entries σ).0 ≡ ok tt
      → (n k : Bytes)
      → view S (reconcile_secret S w.name w.namespace w.entries σ).1 n k ≡ write w (view S σ) n k
  reconcile_secret-read w σ h n k = elim (Bool-cases (w.name == n)) [
    | inl e ↦ rw e (
        subst
          (λ m.
            view S (reconcile_secret S w.name w.namespace w.entries σ).1 m k
            ≡ overlay w.entries (stored (S.get m σ)) k)
          (==-eq w.name n e)
          (Shows-stored (overlay w.entries (stored (S.get w.name σ))) _
            (reconcile_secret-Shows S law w.name w.namespace w.entries σ h) k))
    | inr e ↦ rw e (
        ap (λ g. index (stored g) k)
          (reconcile_secret_frame S w.name w.namespace w.entries σ n law
            (λ p. ==-ne w.name n e (sym p))))
  ]

  -- A sequence of calls of `ReconcileSecret` that all succeed leaves what the map of maps holds after
  -- the same updates, one after the other: each entry reads as the value that was wanted last for it,
  -- and else as it did before the calls.
  pub reconcile_all-replay :
      (ws : List Wanted) (σ : S.State)
      → (reconcile_all S ws σ).0 ≡ ok tt
      → view S (reconcile_all S ws σ).1 ≡ replay ws (view S σ)
  reconcile_all-replay [] σ h = refl
  reconcile_all-replay (w ∷ ws) σ h =
      let first = reconcile_secret S w.name w.namespace w.entries σ in
      let (u, e, rest, same) = continue-ok first.0 (λ _. reconcile_all S ws) first.1 tt h in
      ap (view S) same
      ∙ reconcile_all-replay ws first.1 rest
      ∙ ap (replay ws) (λ i n k. reconcile_secret-read w σ e n k i)
