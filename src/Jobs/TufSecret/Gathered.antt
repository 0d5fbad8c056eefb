-- ===== src/Jobs/TufSecret/Gathered.antt =====
-- What the secret for the TUF server holds after the job.
use scaffolding.Base.{
  ◌≡◌, ◌≢◌, sym, ap, subst, String, Bytes, [], ◌∷◌, codes, Result, ok, or_panic, or_panic-eq-ok,
  ok-injective, >>=-eq-ok,
}
use scaffolding.Base.Dict.{index}
use scaffolding.Cluster.{Got, found, not_found, failed, SecretInterface, IsLawful, continue-ok}
use scaffolding.Secret.{reconcile_secret}
use scaffolding.Secret.Effects.{Shows, overlay, stored, reconcile_secret-Shows}
use scaffolding.Jobs.Crypto.{check_namespace}
use scaffolding.Jobs.TufSecret.{
  TufFlags, TufKeys, tuf_entries, not_empty, read_key, get_keys, create_tuf_secret,
}

-- The entry is there and is not empty.
abbrev pub IsHeld : Got → Bytes → Bytes → Type 0
IsHeld g key v = (index (stored g) key ≡ v) × (v ≢ [])

not_empty-ok : (text : String) (v w : Bytes) → not_empty text v ≡ ok w → (v ≡ w) × (w ≢ [])
unfolding not_empty
not_empty-ok text [] w h = absurd (cc)
not_empty-ok text (c ∷ v) w h = (cc (h), λ e. cc (h, e))

read_key-IsHeld :
    (t1 t2 : String) (key : Bytes) (g : Got) (v : Bytes)
    → read_key t1 t2 key g ≡ ok v
    → IsHeld g key v
unfolding read_key
read_key-IsHeld t1 t2 key (failed e) v h = absurd (cc)
read_key-IsHeld t1 t2 key not_found v h = absurd (cc)
read_key-IsHeld t1 t2 key (found s) v h = not_empty-ok t2 _ v h

module _ (flags : TufFlags) (config clientset : Result (Unit {0})) (S : SecretInterface) where
  -- The four entries that the secrets of the other jobs hold.
  pub AreHeld : S.State → TufKeys → Type 0
  AreHeld σ keys =
      IsHeld (S.get flags.fulcio_secret σ) (codes "cert") keys.f_cert
      × IsHeld (S.get flags.ctlog_secret σ) (codes "public") keys.c_pub
      × IsHeld (S.get flags.rekor_secret σ) (codes "public") keys.r_pub
      × IsHeld (S.get flags.tsa_secret σ) (codes "cert-chain") keys.cert_chain

  get_keys-AreHeld :
      (σ : S.State) (keys : TufKeys)
      → get_keys flags config clientset S σ ≡ ok keys
      → AreHeld σ keys
  unfolding get_keys AreHeld
  get_keys-AreHeld σ keys h =
      let (u, e1, h1) = >>=-eq-ok (check_namespace flags.namespace) _ h in
      let (v, e2, h2) = >>=-eq-ok (or_panic _ config) _ h1 in
      let (w, e3, h3) = >>=-eq-ok (or_panic _ clientset) _ h2 in
      let (f, e4, h4) =
        >>=-eq-ok (read_key _ _ (codes "cert") (S.get flags.fulcio_secret σ)) _ h3 in
      let (c, e5, h5) =
        >>=-eq-ok (read_key _ _ (codes "public") (S.get flags.ctlog_secret σ)) _ h4 in
      let (r, e6, h6) =
        >>=-eq-ok (read_key _ _ (codes "public") (S.get flags.rekor_secret σ)) _ h5 in
      let (t, e7, h7) =
        >>=-eq-ok (read_key _ _ (codes "cert-chain") (S.get flags.tsa_secret σ)) _ h6 in
      subst (AreHeld σ) (ok-injective h7) (
        read_key-IsHeld _ _ _ (S.get flags.fulcio_secret σ) f e4,
        read_key-IsHeld _ _ _ (S.get flags.ctlog_secret σ) c e5,
        read_key-IsHeld _ _ _ (S.get flags.rekor_secret σ) r e6,
        read_key-IsHeld _ _ _ (S.get flags.tsa_secret σ) t e7,
      )

  -- After a success the four secrets of the other jobs held entries that are not empty, and the secret
  -- for the server reads as these, under the names of its files, over what it held.
  pub create_tuf_secret-Shows :
      (law : IsLawful S) (σ : S.State)
      → (create_tuf_secret flags config clientset S σ).0 ≡ ok tt
      → (keys : TufKeys) × AreHeld σ keys
        × Shows
            (overlay (tuf_entries keys) (stored (S.get flags.secret_name σ)))
            (S.get flags.secret_name (create_tuf_secret flags config clientset S σ).1)
  unfolding create_tuf_secret
  create_tuf_secret-Shows law σ h =
      let (keys, e1, h1, s1) = continue-ok (get_keys flags config clientset S σ) _ σ tt h in
      let write = reconcile_secret S flags.secret_name flags.namespace (tuf_entries keys) σ in
      (
        keys,
        get_keys-AreHeld σ keys e1,
        subst (Shows _) (sym (ap (S.get flags.secret_name) s1)) (
            reconcile_secret-Shows S law flags.secret_name flags.namespace (tuf_entries keys) σ
              (or_panic-eq-ok "Failed to get secret %s/%s: %v" write.0 h1)),
      )
