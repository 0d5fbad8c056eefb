-- ===== src/Secret/Effects.antt =====
-- What `ReconcileSecret` leaves in the namespace, through any lawful `SecretInterface`.
use scaffolding.Base.{
  ◌≡◌, refl, ◌∙◌, Bytes, Bool, true, false, Option, none, some, [], ◌∷◌, arith, Error, Result, ok,
  err, panic, exit, if◌then◌else◌, String, subst, ap, sym,
}
use scaffolding.Base.Dict.{Dict, index, lookup, keys}
use scaffolding.Cluster.{
  Secret, contents, Got, found, not_found, failed, SecretInterface, IsLawful, Reads, reads,
  continue,
}
use scaffolding.Secret.{fill, attempt, write_back, reconcile_got, reconcile_secret}
use scaffolding.Secret.Fill.{holds_key, index-fill, fill_same}

-- The entries that a read gives.
abbrev pub stored : Got → Dict Bytes
stored (found s) = contents s.entries
stored not_found = []
stored (failed e) = []

-- The wanted entries over the old ones.
abbrev pub overlay : Dict Bytes → Dict Bytes → Bytes → Bytes
overlay wanted old k = if holds_key k (keys wanted) then index wanted k else index old k

index-absent : (k : Bytes) (d : Dict Bytes) → holds_key k (keys d) ≡ false → index d k ≡ []
unfolding lookup keys
index-absent k [] h = refl
index-absent k ((j, v) ∷ d) h = ground (arith, index-absent k d)

pub overlay_nil : (k : Bytes) (d : Dict Bytes) → index d k ≡ overlay d [] k
unfolding lookup
overlay_nil k d = ground (arith, index-absent k d)

-- What a read gives after a successful call: a secret with these entries.
abbrev pub Shows : (Bytes → Bytes) → Got → Type 0
Shows f (found t) = (k : Bytes) → index (contents t.entries) k ≡ f k
Shows f not_found = ⊥
Shows f (failed e) = ⊥

Shows-Reads :
    (f : Bytes → Bytes) (s : Secret) (g : Got)
    → Reads s g
    → ((k : Bytes) → index (contents s.entries) k ≡ f k)
    → Shows f g
Shows-Reads f s g (reads t same) h = λ k. rw (same k) (h k)

attempt-ok :
    {σ : Type 0} (text : String) (call : σ → Option Error × σ) (s : σ)
    → (attempt text call s).0 ≡ ok tt
    → ((call s).0 ≡ none) × ((attempt text call s).1 ≡ (call s).1)
unfolding attempt
attempt-ok text call s h = ground arith

module _ (S : SecretInterface) (L : IsLawful S) (name ns : Bytes) (wanted : Dict Bytes) where
  abbrev after : Got → S.State → S.State
  after g σ = (reconcile_got S name ns wanted g σ).1

  write_back-Shows :
      (s : Secret) (entries : Option (Dict Bytes)) (update : Bool) (σ : S.State)
      → fill wanted (keys wanted) s.entries false ≡ ok (entries, update)
      → S.get name σ ≡ found s
      → (write_back S s (entries, update) σ).0 ≡ ok tt
      → Shows
          (overlay wanted (contents s.entries))
          (S.get name (write_back S s (entries, update) σ).1)
  unfolding write_back
  write_back-Shows s entries true σ e g h =
      let s' : Secret = record s { entries = entries } in
      Shows-Reads _ s' _
        (subst (λ n. Reads s' (S.get n (S.update s' σ).1)) (L.get_name name σ s g)
          (L.update_reads s' σ (attempt-ok _ (S.update s') σ h).0))
        (λ k. index-fill wanted (keys wanted) s.entries false entries true k e)
  write_back-Shows s entries false σ e g h = rw g (λ k.
      ap (λ d. index (contents d) k)
        (sym (fill_same wanted (keys wanted) s.entries false entries e).1)
      ∙ index-fill wanted (keys wanted) s.entries false entries false k e)

  filled-Shows :
      (s : Secret) (r : Result (Option (Dict Bytes) × Bool)) (σ : S.State)
      → fill wanted (keys wanted) s.entries false ≡ r
      → S.get name σ ≡ found s
      → (continue r (write_back S s) σ).0 ≡ ok tt
      → Shows (overlay wanted (contents s.entries)) (S.get name (continue r (write_back S s) σ).1)
  filled-Shows s (ok (entries, update)) σ e g h = write_back-Shows s entries update σ e g h
  filled-Shows s (err x) σ e g h = absurd (cc)
  filled-Shows s (panic x) σ e g h = absurd (cc)
  filled-Shows s (exit x) σ e g h = absurd (cc)

  got-Shows :
      (g : Got) (σ : S.State)
      → S.get name σ ≡ g
      → (reconcile_got S name ns wanted g σ).0 ≡ ok tt
      → Shows (overlay wanted (stored g)) (S.get name (after g σ))
  unfolding reconcile_got
  got-Shows (failed x) σ e h = absurd (cc)
  got-Shows (found s) σ e h = filled-Shows s _ σ refl e h
  got-Shows not_found σ e h =
      let s : Secret = record { namespace = ns; name = name; entries = some wanted } in
      Shows-Reads _ s _ (L.create_reads s σ (attempt-ok _ (S.create s) σ h).0)
        (λ k. overlay_nil k wanted)

  -- After a successful call the secret is there, and reads as the wanted entries over what it held:
  -- the other keys keep their values.
  pub reconcile_secret-Shows :
      (σ : S.State)
      → (reconcile_secret S name ns wanted σ).0 ≡ ok tt
      → Shows
          (overlay wanted (stored (S.get name σ)))
          (S.get name (reconcile_secret S name ns wanted σ).1)
  unfolding reconcile_secret
  reconcile_secret-Shows σ h = got-Shows (S.get name σ) σ refl h
