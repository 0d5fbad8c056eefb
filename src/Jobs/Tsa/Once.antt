-- ===== src/Jobs/Tsa/Once.antt =====
-- The chain of the time stamping authority is made once.
use scaffolding.Base.{
  ◌≡◌, ◌≢◌, refl, sym, ap, ◌∙◌, subst, inl, inr, Bytes, true, false, Option, none, some, [], ◌∷◌,
  codes, Result, ok, or_fatal, or_fatal-eq-ok, Bool-cases, if◌then◌else◌, bytes_dec, ok-injective,
  Option-cases,
}
use scaffolding.Base.Dict.{Dict, index, lookup, keys, or_nil}
use scaffolding.Cluster.{
  Secret, contents, Got, found, not_found, failed, SecretInterface, IsLawful, continue-ok, lift,
  handle,
}
use scaffolding.Secret.{reconcile_secret}
use scaffolding.Secret.Effects.{Shows, overlay, stored, reconcile_secret-Shows}
use scaffolding.Jobs.Crypto.{Crypto, check_namespace}
use scaffolding.Jobs.Rekor.{some_or_fatal, signing_key_secret_key, signing_key_secret_password_key}
use scaffolding.Jobs.Tsa.{
  cert_chain_key, has_entry, existing_data, is_complete, new_chain, make_chain, create_cert_chain,
}

-- What is written is not empty.
pub record NotEmpty (C : Crypto) : Type 0 where
  pub pem : (b : C.Block) (p : Bytes) → C.pem_encode_to_memory b ≡ some p → p ≢ []
  pub uuid : C.new_uuid ≢ []
  pub chain : (c : C.Chain) (s : Bytes) → C.marshal_certificates c ≡ ok s → s ≢ []

-- A value that is read and not empty is there.
index-has_entry : (d : Dict Bytes) (k v : Bytes) → index d k ≡ v → v ≢ [] → has_entry d k ≡ true
index-has_entry d k v e n = elim (Option-cases (lookup k d)) [
  | inl q ↦ absurd (n (sym e ∙ ap or_nil q))
  | inr (w, q) ↦ rw (q, has_entry) refl
]

module _ (C : Crypto) (namespace secret_name : Bytes) (S : SecretInterface) where
  abbrev entries_of : Bytes → Bytes → Dict Bytes
  entries_of pem chain =
      (signing_key_secret_key, pem)
      ∷ (signing_key_secret_password_key, C.new_uuid)
      ∷ (cert_chain_key, chain)
      ∷ []

  some_or_fatal-ok : (o : Option Bytes) (p : Bytes) → some_or_fatal o ≡ ok p → o ≡ some p
  unfolding some_or_fatal
  some_or_fatal-ok none p h = absurd (cc)
  some_or_fatal-ok (some q) p h = ap some (ok-injective h)

  new_chain-ok :
      (N : NotEmpty C) (σ : S.State) (d : Dict Bytes)
      → (new_chain C namespace secret_name S σ).0 ≡ ok d
      → (p : Bytes) × (c : Bytes) × (p ≢ [])
        × (c ≢ [])
        × (d ≡ entries_of p c)
        × ((new_chain C namespace secret_name S σ).1 ≡ σ)
  unfolding new_chain
  new_chain-ok N σ d h =
      let (key, e1, h1, s1) = continue-ok (or_fatal C.generate_key) _ σ d h in
      let (private, e2, h2, s2) =
        continue-ok (or_fatal (C.marshal_pkcs8_private_key key)) _ σ d h1 in
      let (block, e3, h3, s3) =
        continue-ok (or_fatal (C.encrypt_pem_block (codes "PRIVATE KEY") private C.new_uuid)) _ σ d
          h2 in
      let (pem, e4, h4, s4) = continue-ok (some_or_fatal (C.pem_encode_to_memory block)) _ σ d h3 in
      let (s, e5, h5, s5) = continue-ok (or_fatal (C.load_signer key)) _ σ d h4 in
      let (chain, e6, h6, s6) =
        continue-ok (or_fatal (C.new_timestamping_cert_with_chain s)) _ σ d h5 in
      let (bytes, e7, h7, s7) = continue-ok (or_fatal (C.marshal_certificates chain)) _ σ d h6 in
      (
        pem,
        bytes,
        N.pem block pem (some_or_fatal-ok _ pem e4),
        N.chain chain bytes (or_fatal-eq-ok (C.marshal_certificates chain) e7),
        sym (ok-injective h7),
        s1 ∙ s2 ∙ s3 ∙ s4 ∙ s5 ∙ s6 ∙ s7,
      )

  Shows-is_complete :
      (N : NotEmpty C) (p c : Bytes) (old : Dict Bytes) (g : Got)
      → p ≢ []
      → c ≢ []
      → Shows (overlay (entries_of p c) old) g
      → (s : Secret) × (g ≡ found s) × (is_complete s.entries ≡ true)
  unfolding is_complete keys lookup bytes_dec
  Shows-is_complete N p c old not_found np nc h = absurd h
  Shows-is_complete N p c old (failed e) np nc h = absurd h
  Shows-is_complete N p c old (found s) np nc h = (s, refl, complete s.entries h)
    where
      complete :
          (entries : Option (Dict Bytes))
          → ((k : Bytes) → index (contents entries) k ≡ overlay (entries_of p c) old k)
          → is_complete entries ≡ true
      complete none h = absurd (np (sym (h signing_key_secret_key)))
      complete (some d) h =
          rw
            (
              index-has_entry d cert_chain_key c (h cert_chain_key) nc,
              index-has_entry d signing_key_secret_key p (h signing_key_secret_key) np,
              index-has_entry d signing_key_secret_password_key C.new_uuid
                  (h signing_key_secret_password_key) N.uuid,
            )
            refl

  -- A new chain leaves a complete secret.
  make_chain-is_complete :
      (law : IsLawful S) (N : NotEmpty C) (σ : S.State)
      → (make_chain C namespace secret_name S σ).0 ≡ ok tt
      → (s : Secret) × (S.get secret_name (make_chain C namespace secret_name S σ).1 ≡ found s)
        × (is_complete s.entries ≡ true)
  unfolding make_chain
  make_chain-is_complete law N σ h =
      let made = new_chain C namespace secret_name S σ in
      let (d, e, g, q) =
        continue-ok made.0 (λ d. handle or_fatal (reconcile_secret S secret_name namespace d))
          made.1 tt h in
      let (p, c, np, nc, w, _) = new_chain-ok N σ d e in
      let written =
        reconcile_secret-Shows S law secret_name namespace d made.1
          (or_fatal-eq-ok (reconcile_secret S secret_name namespace d made.1).0 g) in
      let (s, f, i) = Shows-is_complete N p c (stored (S.get secret_name made.1)) _ np nc (
        subst
          (λ w.
            Shows (overlay w (stored (S.get secret_name made.1)))
              (S.get secret_name (reconcile_secret S secret_name namespace d made.1).1))
          w written) in
      (s, ap (S.get secret_name) q ∙ f, i)

  -- A job that finds everything does nothing.
  finds_complete :
      (σ : S.State) (entries : Option (Dict Bytes))
      → check_namespace namespace ≡ ok tt
      → or_fatal C.client ≡ ok tt
      → existing_data (S.get secret_name σ) ≡ ok entries
      → is_complete entries ≡ true
      → create_cert_chain C namespace secret_name S σ ≡ (ok tt, σ)
  unfolding create_cert_chain
  finds_complete σ entries n c e i = rw (n, c, e) (rw i refl)

  existing-found :
      (σ : S.State) (s : Secret)
      → S.get secret_name σ ≡ found s
      → existing_data (S.get secret_name σ) ≡ ok s.entries
  unfolding existing_data
  existing-found σ s g = rw (g, existing_data) refl

  made :
      (d : Option (Dict Bytes)) (σ : S.State)
      → is_complete d ≡ false
      → ((if is_complete d then lift (ok tt) else make_chain C namespace secret_name S) σ).1
        ≡ (make_chain C namespace secret_name S σ).1
  made d σ i = rw i refl

  -- After a run that succeeds, a second run succeeds and changes nothing: the chain and the key are
  -- made once. The encodings and the password that are written must not be empty.
  pub create_cert_chain_once :
      (law : IsLawful S) (N : NotEmpty C) (σ : S.State)
      → (create_cert_chain C namespace secret_name S σ).0 ≡ ok tt
      → let σ' = (create_cert_chain C namespace secret_name S σ).1 in
        create_cert_chain C namespace secret_name S σ' ≡ (ok tt, σ')
  unfolding create_cert_chain
  create_cert_chain_once law N σ h =
      let (a, n, h1, s1) = continue-ok (check_namespace namespace) _ σ tt h in
      let (b, c, h2, s2) = continue-ok (or_fatal C.client) _ σ tt h1 in
      let (d, e, h3, s3) =
        continue-ok (existing_data (S.get secret_name σ))
          (λ d. if is_complete d then lift (ok tt) else make_chain C namespace secret_name S) σ tt
          h2 in
      elim (Bool-cases (is_complete d)) [
        | inl i ↦
            let w = finds_complete σ d n c e i in
            subst
              (λ (r : Result (Unit {0}) × S.State).
                create_cert_chain C namespace secret_name S r.1 ≡ (ok tt, r.1))
              (sym w) w
        | inr i ↦
            let (s, f, j) = make_chain-is_complete law N σ (rw i at h3) in
            let st = s1 ∙ s2 ∙ s3 ∙ made d σ i in
            finds_complete _ s.entries n c (existing-found _ s (ap (S.get secret_name) st ∙ f)) j
      ]
