-- ===== src/Ctlog/Marshal/Written.antt =====
-- The entries of the secret that `MarshalConfig` writes, looked up.
use scaffolding.Base.{
  ◌≡◌, ◌↔◌, inl, inr, refl, sym, ap, ◌∙◌, Bytes, false, none, some, List, [], ◌∷◌, codes, ◌==◌, In,
  has_prefix, bytes_dec, Bool-cases, ==-eq,
}
use scaffolding.Base.Dict.{Dict, lookup, insert, lookup-insert}
use scaffolding.Ctlog.Config.{config_key, private_key, public_key, legacy_root_ca_key}
use scaffolding.Ctlog.Marshal.{add_certs, fulcio_key}
use scaffolding.Ctlog.Marshal.Keys.{
  IsFulcioKey, fulcio_key-IsFulcioKey, lookup-add_certs_other, In-add_certs, add_certs-In,
}

-- The entries that `MarshalConfig` writes.
abbrev pub written_entries : Bytes → Bytes → Bytes → List Bytes → Dict Bytes
written_entries text pem public certs =
    insert config_key text (add_certs 0 certs ((private_key, pem) ∷ (public_key, public) ∷ []))

pub lookup-written_config :
    (text pem public : Bytes) (certs : List Bytes)
    → lookup config_key (written_entries text pem public certs) ≡ some text
unfolding bytes_dec
lookup-written_config text pem public certs =
    (lookup-insert config_key config_key text
      (add_certs 0 certs ((private_key, pem) ∷ (public_key, public) ∷ [])))

-- A name that is neither the configuration's nor a certificate's.
lookup-written_other :
    (k text pem public : Bytes) (certs : List Bytes)
    → (config_key == k) ≡ false
    → has_prefix k (codes "fulcio-") ≡ false
    → lookup k (written_entries text pem public certs)
      ≡ lookup k ((private_key, pem) ∷ (public_key, public) ∷ [])
lookup-written_other k text pem public certs n f =
    lookup-insert config_key k text
      (add_certs 0 certs ((private_key, pem) ∷ (public_key, public) ∷ []))
    ∙ rw n (lookup-add_certs_other k 0 certs ((private_key, pem) ∷ (public_key, public) ∷ []) f)

pub lookup-written_private :
    (text pem public : Bytes) (certs : List Bytes)
    → lookup private_key (written_entries text pem public certs) ≡ some pem
unfolding lookup has_prefix bytes_dec
lookup-written_private text pem public certs =
    lookup-written_other private_key text pem public certs refl refl

pub lookup-written_public :
    (text pem public : Bytes) (certs : List Bytes)
    → lookup public_key (written_entries text pem public certs) ≡ some public
unfolding lookup has_prefix bytes_dec
lookup-written_public text pem public certs =
    lookup-written_other public_key text pem public certs refl refl

pub lookup-written_legacy :
    (text pem public : Bytes) (certs : List Bytes)
    → lookup legacy_root_ca_key (written_entries text pem public certs) ≡ none
unfolding lookup has_prefix bytes_dec
lookup-written_legacy text pem public certs =
    lookup-written_other legacy_root_ca_key text pem public certs refl refl

not_fulcio :
    (j k : Bytes) → has_prefix j (codes "fulcio-") ≡ false → IsFulcioKey k → (j == k) ≡ false
not_fulcio j k n f = elim (Bool-cases (j == k)) [
  | inl e ↦ absurd (cc (n, f, ap (λ s. has_prefix s (codes "fulcio-")) (==-eq j k e)))
  | inr e ↦ e
]

lookup-written_fulcio :
    (k text pem public : Bytes) (certs : List Bytes)
    → IsFulcioKey k
    → lookup k (written_entries text pem public certs)
      ≡ lookup k (add_certs 0 certs ((private_key, pem) ∷ (public_key, public) ∷ []))
unfolding has_prefix
lookup-written_fulcio k text pem public certs f =
    lookup-insert config_key k text
      (add_certs 0 certs ((private_key, pem) ∷ (public_key, public) ∷ []))
    ∙ rw (not_fulcio config_key k refl f) refl

lookup-keys_none :
    (k pem public : Bytes)
    → IsFulcioKey k
    → lookup k ((private_key, pem) ∷ (public_key, public) ∷ []) ≡ none
unfolding lookup has_prefix
lookup-keys_none k pem public f =
    rw (not_fulcio private_key k refl f, not_fulcio public_key k refl f) refl

-- The values under the fulcio keys are the certificates.
pub written_entries-In :
    (x text pem public : Bytes) (certs : List Bytes)
    → ((k : Bytes) × IsFulcioKey k × (lookup k (written_entries text pem public certs) ≡ some x))
      ↔ In x certs
written_entries-In x text pem public certs = (
  λ (k, f, h).
      elim (In-add_certs k x 0 certs ((private_key, pem) ∷ (public_key, public) ∷ [])
        (sym (lookup-written_fulcio k text pem public certs f) ∙ h)) [
          | inl e ↦ absurd (cc (e, lookup-keys_none k pem public f))
          | inr i ↦ i
        ],
  λ i.
      let (j, e) = add_certs-In x 0 certs ((private_key, pem) ∷ (public_key, public) ∷ []) i in
      (
        fulcio_key j,
        fulcio_key-IsFulcioKey j,
        lookup-written_fulcio (fulcio_key j) text pem public certs (fulcio_key-IsFulcioKey j) ∙ e,
      ),
)
