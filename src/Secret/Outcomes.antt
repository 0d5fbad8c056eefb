-- ===== src/Secret/Outcomes.antt =====
-- Which calls `ReconcileSecret` makes, and how it ends.
use scaffolding.Base.{
  ◌≡◌, ◌≢◌, ◌↔◌, refl, ◌∙◌, ap, Bytes, Bool, true, false, Option, none, some, arith, Error, wrapf,
  Result, ok, err, panic, exit, Bool-cases, inl, inr, String,
}
use scaffolding.Base.Dict.{Dict, index, keys}
use scaffolding.Cluster.{
  Secret, contents, Got, found, not_found, failed, SecretInterface, IsLawful, continue,
}
use scaffolding.Secret.{fill, attempt, write_back, reconcile_got, reconcile_secret}
use scaffolding.Secret.Fill.{holds_key, fill_done, sets_any, fill-none, fill-some}
use scaffolding.Secret.Effects.{stored, overlay, Shows, reconcile_secret-Shows}

attempt-ne-panic :
    {σ : Type 0} (text t : String) (call : σ → Option Error × σ) (s : σ)
    → (attempt text call s).0 ≢ panic t
unfolding attempt
attempt-ne-panic text t call s h = ground arith

module _ (S : SecretInterface) (name ns : Bytes) (wanted : Dict Bytes) where
  -- A secret that already reads as wanted at every wanted key is not written.
  pub reconcile_secret_unchanged :
      (σ : S.State) (s : Secret)
      → S.get name σ ≡ found s
      → ((k : Bytes)
          → holds_key k (keys wanted) ≡ true
          → index (contents s.entries) k ≡ index wanted k)
      → reconcile_secret S name ns wanted σ ≡ (ok tt, σ)
  unfolding reconcile_secret
  reconcile_secret_unchanged σ s g h =
      rw (g, reconcile_got) (rw (fill_done wanted (keys wanted) s.entries false h) refl)

  -- With an error of `Get` other than not-found nothing is written.
  reconcile_secret-failed :
      (σ : S.State) (e : Error)
      → S.get name σ ≡ failed e
      → reconcile_secret S name ns wanted σ ≡ (err (wrapf "failed to get secret %s/%s: %w" e), σ)
  unfolding reconcile_secret
  reconcile_secret-failed σ e g = rw (g, reconcile_got) refl

  write_back-ne-panic :
      (s : Secret) (r : Option (Dict Bytes) × Bool) (σ : S.State) (t : String)
      → (write_back S s r σ).0 ≢ panic t
  unfolding write_back
  write_back-ne-panic s (d, true) σ t h =
      attempt-ne-panic "failed to update secret %s/%s: %w" t (S.update (record s { entries = d })) σ
        h
  write_back-ne-panic s (d, false) σ t h = cc

  abbrev pub NilMap : Option (Dict Bytes) → Type 0
  NilMap entries = (entries ≡ none) × (sets_any wanted (keys wanted) ≡ true)

  filled-panic :
      (s : Secret) (entries : Option (Dict Bytes)) (σ : S.State) (t : String)
      → (continue (fill wanted (keys wanted) entries false) (write_back S s) σ).0 ≡ panic t
      → NilMap entries
  filled-panic s none σ t h = elim (Bool-cases (sets_any wanted (keys wanted))) [
    | inl e ↦ (refl, e)
    | inr e ↦ absurd (write_back-ne-panic s (none, false) σ t (rw (fill-none, e) at h))
  ]
  filled-panic s (some d) σ t h =
      let (d', update, e) = fill-some wanted (keys wanted) d false in
      absurd (write_back-ne-panic s (some d', update) σ t (rw e at h))

  got-panic :
      (g : Got) (σ : S.State) (t : String)
      → (reconcile_got S name ns wanted g σ).0 ≡ panic t
      → (s : Secret) × (g ≡ found s) × NilMap s.entries
  unfolding reconcile_got
  got-panic (failed e) σ t h = absurd (cc)
  got-panic not_found σ t h = absurd (
      attempt-ne-panic "failed to create secret %s/%s: %w" t
        (S.create (record { namespace = ns; name = name; entries = some wanted })) σ h)
  got-panic (found s) σ t h = (s, refl, filled-panic s s.entries σ t h)

  found-NilMap :
      (s : Secret) (entries : Option (Dict Bytes)) (σ : S.State)
      → NilMap entries
      → continue (fill wanted (keys wanted) entries false) (write_back S s) σ
        ≡ (panic "assignment to entry in nil map", σ)
  found-NilMap s none σ h = rw (fill-none, h.1) refl
  found-NilMap s (some d) σ h = cc (h.0)

  -- The call panics exactly when the secret exists with a nil `Data` map and some wanted value is
  -- not empty; it has then written nothing.
  pub reconcile_secret-panic :
      (σ : S.State)
      → ((t : String) × ((reconcile_secret S name ns wanted σ).0 ≡ panic t)) ↔ (
          (s : Secret) × (S.get name σ ≡ found s)
          × NilMap s.entries
          × (reconcile_secret S name ns wanted σ ≡ (panic "assignment to entry in nil map", σ)))
  unfolding reconcile_secret
  reconcile_secret-panic σ = (
    λ (t, h).
        let (s, g, e) = got-panic (S.get name σ) σ t h in
        (s, g, e, rw (g, reconcile_got) (found-NilMap s s.entries σ e)),
    λ (s, g, e, h).
        ("assignment to entry in nil map", ap (λ (r : Result (Unit {0}) × S.State). r.0) h),
  )

  attempt_frame :
      (text : String) (call : S.State → Option Error × S.State) (σ : S.State) (n : Bytes)
      → S.get n (call σ).1 ≡ S.get n σ
      → S.get n (attempt text call σ).1 ≡ S.get n σ
  unfolding attempt
  attempt_frame text call σ n h = h

  write_back_frame :
      (s : Secret) (r : Option (Dict Bytes) × Bool) (σ : S.State) (n : Bytes)
      → IsLawful S
      → n ≢ s.name
      → S.get n (write_back S s r σ).1 ≡ S.get n σ
  unfolding write_back
  write_back_frame s (d, true) σ n L h = L.update_frame (record s { entries = d }) σ n h
  write_back_frame s (d, false) σ n L h = refl

  filled_frame :
      (s : Secret) (r : Result (Option (Dict Bytes) × Bool)) (σ : S.State) (n : Bytes)
      → IsLawful S
      → n ≢ s.name
      → S.get n (continue r (write_back S s) σ).1 ≡ S.get n σ
  filled_frame s (ok d) σ n L h = write_back_frame s d σ n L h
  filled_frame s (err e) σ n L h = refl
  filled_frame s (panic t) σ n L h = refl
  filled_frame s (exit x) σ n L h = refl

  got_frame :
      (g : Got) (σ : S.State) (n : Bytes)
      → IsLawful S
      → n ≢ name
      → S.get name σ ≡ g
      → S.get n (reconcile_got S name ns wanted g σ).1 ≡ S.get n σ
  unfolding reconcile_got
  got_frame (failed e) σ n L h g = refl
  got_frame not_found σ n L h g =
      L.create_frame (record { namespace = ns; name = name; entries = some wanted }) σ n h
  got_frame (found s) σ n L h g = filled_frame s _ σ n L (λ e. h (e ∙ L.get_name name σ s g))

  -- No other secret of the namespace changes, however the call ends.
  pub reconcile_secret_frame :
      (σ : S.State) (n : Bytes)
      → IsLawful S
      → n ≢ name
      → S.get n (reconcile_secret S name ns wanted σ).1 ≡ S.get n σ
  unfolding reconcile_secret
  reconcile_secret_frame σ n L h = got_frame (S.get name σ) σ n L h refl

  Shows-same :
      (old : Dict Bytes) (g : Got) (σ : S.State)
      → S.get name σ ≡ g
      → Shows (overlay wanted old) g
      → reconcile_secret S name ns wanted σ ≡ (ok tt, σ)
  Shows-same old (found t) σ g h = reconcile_secret_unchanged σ t g (λ k m. h k ∙ rw m refl)
  Shows-same old not_found σ g h = absurd h
  Shows-same old (failed e) σ g h = absurd h

  -- To call again after a success succeeds and writes nothing.
  pub reconcile_secret_idem :
      (σ : S.State)
      → IsLawful S
      → (reconcile_secret S name ns wanted σ).0 ≡ ok tt
      → let σ' = (reconcile_secret S name ns wanted σ).1 in
        reconcile_secret S name ns wanted σ' ≡ (ok tt, σ')
  reconcile_secret_idem σ L h =
      Shows-same (stored (S.get name σ)) _ _ refl (reconcile_secret-Shows S L name ns wanted σ h)
