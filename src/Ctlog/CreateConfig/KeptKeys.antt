-- ===== src/Ctlog/CreateConfig/KeptKeys.antt =====
-- A job that finds a configuration does not replace its keys.
use scaffolding.Base.{
  ne-==, ◌≡◌, ◌≢◌, subst, refl, sym, ap, ◌∙◌, inl, inr, Bytes, false, Option, none, some, [], ◌∷◌,
  Result, ok, or_panic, or_fatal, arith, bytes_dec, ◌>>=◌, >>=-eq-ok, ok-injective, or_panic-eq-ok,
  Option-cases, ==-ne,
}
use scaffolding.Base.Dict.{Dict, index, or_nil, lookup, lookup-insert, keys, erase, insert}
use scaffolding.Cluster.{
  Secret, contents, Got, found, not_found, failed, SecretInterface, IsLawful, continue-ok,
}
use scaffolding.Secret.{reconcile_secret}
use scaffolding.Secret.Fill.{holds_key}
use scaffolding.Secret.Effects.{Shows, stored, reconcile_secret-Shows}
use scaffolding.Secret.Outcomes.{reconcile_secret_frame}
use scaffolding.Ctlog.External.{Library}
use scaffolding.Ctlog.Config.{Config}
use scaffolding.Ctlog.Marshal.{marshal_config, unmarshal}
use scaffolding.Ctlog.CreateConfig.{
  Flags, World, private_key, public_key, config_key, updated_entries, update_existing,
  add_root_or_log, with_config, write_public,
}

lookup_other : (j k v : Bytes) (d : Dict Bytes) → j ≢ k → lookup k (insert j v d) ≡ lookup k d
lookup_other j k v d n = lookup-insert j k v d ∙ rw (ne-== j k n) refl

holds_key-erase : (k : Bytes) (d : Dict Bytes) → holds_key k (keys (erase k d)) ≡ false
unfolding keys erase
holds_key-erase k [] = refl
holds_key-erase k ((j, v) ∷ d) = ground (arith, holds_key-erase k d)

holds_key-erase_other :
    (k j : Bytes) (d : Dict Bytes)
    → holds_key k (keys d) ≡ false
    → holds_key k (keys (erase j d)) ≡ false
unfolding keys erase
holds_key-erase_other k j [] h = refl
holds_key-erase_other k j ((i, v) ∷ d) h = ground (arith, holds_key-erase_other k j d)

public-ne-config : public_key ≢ config_key
unfolding bytes_dec
public-ne-config = ==-ne public_key config_key refl

-- A secret is found, and reads as `v` at the key.
abbrev pub ReadsAt : Bytes → Bytes → Got → Type 0
ReadsAt k v (found t) = index (contents t.entries) k ≡ v
ReadsAt k v not_found = ⊥
ReadsAt k v (failed e) = ⊥

Shows-ReadsAt : (f : Bytes → Bytes) (k v : Bytes) (g : Got) → Shows f g → f k ≡ v → ReadsAt k v g
Shows-ReadsAt f k v (found t) h e = h k ∙ e
Shows-ReadsAt f k v not_found h e = h
Shows-ReadsAt f k v (failed x) h e = h

module _ (L : Library) (W : World L) (S : SecretInterface) (flags : Flags) where
  erased :
      (existing m : Dict Bytes) (chain : Bytes)
      → updated_entries L W S flags existing chain ≡ ok m
      → (d : Dict Bytes) × (m ≡ erase public_key (erase private_key d))
  unfolding updated_entries
  erased existing m chain h =
      let add = add_root_or_log L W S flags in
      let last : Config L → Result (Dict Bytes) =
        λ c. or_fatal (marshal_config L c) >>= λ d. ok (erase public_key (erase private_key d)) in
      let (c, e, r) = >>=-eq-ok (or_fatal (unmarshal L existing)) (λ c. add c chain >>= last) h in
      let (c', e', r') = >>=-eq-ok (add c chain) last r in
      let (d, x, r'') =
        >>=-eq-ok (or_fatal (marshal_config L c'))
          (λ d. ok (erase public_key (erase private_key d))) r' in
      (d, sym (ok-injective r''))

  -- The keys are not among the entries that are written.
  no_keys :
      (existing m : Dict Bytes) (chain : Bytes)
      → updated_entries L W S flags existing chain ≡ ok m
      → (holds_key private_key (keys m) ≡ false) × (holds_key public_key (keys m) ≡ false)
  no_keys existing m chain h =
      let (d, e) = erased existing m chain h in
      subst
        (λ m. (holds_key private_key (keys m) ≡ false) × (holds_key public_key (keys m) ≡ false))
        (sym e)
        (
          holds_key-erase_other private_key public_key (erase private_key d)
              (holds_key-erase private_key d),
          holds_key-erase public_key (erase private_key d),
        )

  index-with_config :
      (d : Dict Bytes) (cm : Option Bytes) (k : Bytes)
      → k ≢ config_key
      → index (with_config d cm) k ≡ index d k
  unfolding with_config
  index-with_config d none k n = elim (Option-cases (lookup config_key d)) [
    | inl e ↦ rw (e, with_config) refl
    | inr (v, e) ↦ rw (e, with_config) refl
  ]
  index-with_config d (some w) k n = elim (Option-cases (lookup config_key d)) [
    | inl e ↦ rw (e, with_config) (ap or_nil (lookup_other config_key k w d (λ q. n (sym q))))
    | inr (v, e) ↦ rw (e, with_config) refl
  ]

  -- The write of the entries without the keys.
  written-ReadsAt :
      (law : IsLawful S) (σ : S.State) (m : Dict Bytes) (k v : Bytes)
      → holds_key k (keys m) ≡ false
      → index (stored (S.get flags.secret σ)) k ≡ v
      → (reconcile_secret S flags.secret flags.namespace m σ).0 ≡ ok tt
      → ReadsAt k v (S.get flags.secret (reconcile_secret S flags.secret flags.namespace m σ).1)
  written-ReadsAt law σ m k v e q h =
      Shows-ReadsAt _ k v _ (reconcile_secret-Shows S law flags.secret flags.namespace m σ h)
        (rw e q)

  write_public-ReadsAt :
      (law : IsLawful S) (σ : S.State) (public : Bytes)
      → (write_public L W S flags public σ).0 ≡ ok tt
      → ReadsAt public_key public (S.get flags.pubkey_secret (write_public L W S flags public σ).1)
  unfolding write_public keys lookup bytes_dec
  write_public-ReadsAt law σ public h =
      Shows-ReadsAt _ public_key public _
        (reconcile_secret-Shows S law flags.pubkey_secret flags.namespace
          ((public_key, public) ∷ []) σ
          (or_panic-eq-ok "Failed to reconcile public key secret %s/%s: %v" _ h))
        refl

  write_public_frame :
      (law : IsLawful S) (σ : S.State) (public : Bytes)
      → flags.secret ≢ flags.pubkey_secret
      → S.get flags.secret (write_public L W S flags public σ).1 ≡ S.get flags.secret σ
  unfolding write_public
  write_public_frame law σ public n =
      reconcile_secret_frame S flags.pubkey_secret flags.namespace ((public_key, public) ∷ []) σ
        flags.secret law n

  -- The two writes of an update that succeeds.
  update_existing-ok :
      (existing : Dict Bytes) (chain : Bytes) (σ : S.State)
      → (update_existing L W S flags existing chain σ).0 ≡ ok tt
      → (m : Dict Bytes) × (updated_entries L W S flags existing chain ≡ ok m)
        × (let write = reconcile_secret S flags.secret flags.namespace m σ in
            (write.0 ≡ ok tt)
            × ((write_public L W S flags (index existing public_key) write.1).0 ≡ ok tt)
            × ((update_existing L W S flags existing chain σ).1
                ≡ (write_public L W S flags (index existing public_key) write.1).1))
  unfolding update_existing
  update_existing-ok existing chain σ h =
      let (m, e, h', s) = continue-ok (updated_entries L W S flags existing chain) _ σ tt h in
      let write = reconcile_secret S flags.secret flags.namespace m σ in
      let (u, e', g, s') =
        continue-ok (or_panic "Failed to reconcile secret %s/%s: %v" write.0)
          (λ _. write_public L W S flags (index existing public_key)) write.1 tt h' in
      (m, e, (or_panic-eq-ok "Failed to reconcile secret %s/%s: %v" write.0 e', g, s ∙ s'))

  -- What the job leaves in the two secrets when it has updated a configuration: the private and the
  -- public key read as they did, and the other secret shows this public key.
  pub update_existing-ReadsAt :
      (law : IsLawful S)
      → flags.secret ≢ flags.pubkey_secret
      → (σ : S.State) (s : Secret) (cm : Option Bytes) (chain : Bytes)
      → S.get flags.secret σ ≡ found s
      → (update_existing L W S flags (with_config (contents s.entries) cm) chain σ).0 ≡ ok tt
      → let after = (update_existing L W S flags (with_config (contents s.entries) cm) chain σ).1 in
        ReadsAt private_key (index (contents s.entries) private_key) (S.get flags.secret after)
        × ReadsAt public_key (index (contents s.entries) public_key) (S.get flags.secret after)
        × ReadsAt public_key
            (index (contents s.entries) public_key)
            (S.get flags.pubkey_secret after)
  update_existing-ReadsAt law n σ s cm chain g h =
      let existing = with_config (contents s.entries) cm in
      let (m, e, (w, p, q)) = update_existing-ok existing chain σ h in
      let (no_private, no_public) = no_keys existing m chain e in
      let between = (reconcile_secret S flags.secret flags.namespace m σ).1 in
      let same =
        ap (S.get flags.secret) q ∙ write_public_frame law between (index existing public_key) n in
      let kept : (k : Bytes)
          → holds_key k (keys m) ≡ false
          → ReadsAt k (index (contents s.entries) k) (S.get flags.secret between) =
        λ k f. written-ReadsAt law σ m k _ f (ap (λ g. index (stored g) k) g) w in
      (
        subst (ReadsAt private_key _) (sym same) (kept private_key no_private),
        subst (ReadsAt public_key _) (sym same) (kept public_key no_public),
        subst
            (λ v.
              ReadsAt public_key v
                (S.get flags.pubkey_secret (update_existing L W S flags existing chain σ).1))
            (index-with_config (contents s.entries) cm public_key public-ne-config)
            (subst
              (λ t. ReadsAt public_key (index existing public_key) (S.get flags.pubkey_secret t))
              (sym q) (write_public-ReadsAt law between (index existing public_key) p)),
      )
