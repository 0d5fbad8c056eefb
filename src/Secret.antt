-- ===== src/Secret.antt =====
-- tools/secret/pkg/secret/secret.go: one secret brought to hold the given entries.
pub mod Fill
pub mod Effects
pub mod Outcomes
pub mod Replay
use scaffolding.Base.{
  String, Bytes, Bool, true, false, Option, none, some, List, [], ◌∷◌, Error, errorf, wrapf, Result,
  ok, err, panic, exit, ◌==◌, if◌then◌else◌,
}
use scaffolding.Base.Dict.{Dict, index, insert, keys}
use scaffolding.Cluster.{
  Secret, contents, Got, found, not_found, failed, SecretInterface, Exec, continue, ◌>>=◌,
}

-- The loop over the wanted keys, on the field `Data` of the secret that was read and on the flag
-- `update`. To assign to an entry of a nil map is a run-time panic.
unfoldable pub fill :
    Dict Bytes → List Bytes → Option (Dict Bytes) → Bool → Result (Option (Dict Bytes) × Bool)
fill wanted [] entries update = ok (entries, update)
fill wanted (k ∷ ks) entries update = elim (index wanted k == index (contents entries) k) [
  | true ↦ fill wanted ks entries update
  | false ↦ elim entries [
    | none ↦ panic "assignment to entry in nil map"
    | some d ↦ fill wanted ks (some (insert k (index wanted k) d)) true
  ]
]

-- A call whose error is wrapped.
unfoldable pub attempt {ℓ} :
    {σ : Type ℓ} → String → (σ → Option Error × σ) → σ → Result (Unit {ℓ}) × σ
attempt text call s =
    let (e, s') = call s in (elim e [ none ↦ ok tt | some e ↦ err (wrapf text e) ], s')

module _ (S : SecretInterface) where
  unfoldable pub write_back : Secret → Option (Dict Bytes) × Bool → Exec S.State (Unit {0})
  unfolding attempt
  write_back s (entries, true) σ =
      attempt "failed to update secret %s/%s: %w" (S.update (record s { entries = entries })) σ
  write_back s (entries, false) σ = (ok tt, σ)

  -- What follows the read of the existing secret.
  unfoldable pub reconcile_got : Bytes → Bytes → Dict Bytes → Got → Exec S.State (Unit {0})
  unfolding fill write_back
  reconcile_got name ns wanted (failed e) σ = (err (wrapf "failed to get secret %s/%s: %w" e), σ)
  reconcile_got name ns wanted (found s) σ =
      continue (fill wanted (keys wanted) s.entries false) (write_back s) σ
  reconcile_got name ns wanted not_found σ =
      attempt "failed to create secret %s/%s: %w"
        (S.create (record { namespace = ns; name = name; entries = some wanted })) σ

  -- `ReconcileSecret`
  unfoldable pub reconcile_secret : Bytes → Bytes → Dict Bytes → Exec S.State (Unit {0})
  unfolding reconcile_got
  reconcile_secret name ns wanted σ = reconcile_got name ns wanted (S.get name σ) σ
