-- ===== src/Ctlog/Marshal/RoundTrip.antt =====
-- What `MarshalConfig` writes, `Unmarshal` reads back.
use scaffolding.Base.{
  ◌≡◌, ◌↔◌, refl, sym, ap, ◌∙◌, Bytes, some, List, [], ◌∷◌, codes, ok, arith, In, Distinct,
}
use scaffolding.Base.Dict.{Dict, lookup, insert, or_nil}
use scaffolding.Ctlog.External.{Library, PemKeyFile, pem_key_file, LogMultiConfig}
use scaffolding.Ctlog.Config.{
  Config, config_key, private_key, public_key, legacy_root_ca_key, private_key_file,
  decrypt_existing_private_key, parse_private_key,
}
use scaffolding.Ctlog.Marshal.{
  add_certs, single, as_pem_key_file, unique_certs, multi_config, marshal_config, unmarshal,
}
use scaffolding.Ctlog.Marshal.Unique.{IsMap, unique_certs-In, unique_certs-Distinct}
use scaffolding.Ctlog.Marshal.Written.{
  written_entries, lookup-written_config, lookup-written_private, lookup-written_public,
  lookup-written_legacy, written_entries-In,
}

-- What the round trip relies on: each encoding is read back by its decoder.
pub record ReadsBack (L : Library) : Type 0 where
  pub pkcs8 :
      (k : L.PrivateKey) (d : Bytes)
      → L.marshal_pkcs8_private_key k ≡ ok d
      → L.parse_pkcs8_private_key d ≡ ok k
  pub encrypted :
      (kind d password pem : Bytes) (b : L.Block)
      → L.encrypt_pem_block kind d password ≡ ok b
      → L.pem_encode_to_memory b ≡ some pem
      → (b' : L.Block) × (L.pem_decode pem ≡ some b') × (L.decrypt_pem_block b' password ≡ ok d)
  pub proto :
      (m : LogMultiConfig L.Any) (t : Bytes)
      → L.prototext_marshal m ≡ ok t
      → L.prototext_unmarshal t ≡ ok m
  pub any :
      (p : PemKeyFile) (a : L.Any)
      → L.any_new p ≡ ok a
      → L.any_unmarshal_new a ≡ ok (pem_key_file p)
  pub public :
      (k : L.PublicKey) (d : Bytes)
      → L.marshal_pkix_public_key k ≡ ok d
      → L.unmarshal_pem_to_public_key
          (or_nil (L.pem_encode_to_memory (L.pem_block (codes "PUBLIC KEY") d)))
        ≡ ok k

-- What a successful `MarshalConfig` has called.
pub record Marshalled (L : Library) (c : Config L) (m : Dict Bytes) : Type 0 where
  pub pubkey : L.PublicKey
  pub signer : L.signer_public c.priv_key ≡ some pubkey
  pub key_der : Bytes
  pub der : L.marshal_pkix_public_key pubkey ≡ ok key_der
  pub message : L.Any
  pub boxed :
      L.any_new (record { path = private_key_file; password = c.priv_key_password }) ≡ ok message
  pub text : Bytes
  pub written : L.prototext_marshal (multi_config L c message key_der) ≡ ok text
  pub pkcs8 : Bytes
  pub plain : L.marshal_pkcs8_private_key c.priv_key ≡ ok pkcs8
  pub block : L.Block
  pub locked : L.encrypt_pem_block (codes "PRIVATE KEY") pkcs8 c.priv_key_password ≡ ok block
  pub pem : Bytes
  pub encoded : L.pem_encode_to_memory block ≡ some pem
  pub entries :
      m
      ≡ insert config_key text (
          add_certs 0 c.fulcio_certs (
            (private_key, pem)
            ∷ (
              public_key,
              or_nil (L.pem_encode_to_memory (L.pem_block (codes "PUBLIC KEY") key_der)),
            )
            ∷ []))

module _ (L : Library) where
  marshal_config-Marshalled :
      (c : Config L) (m : Dict Bytes) → marshal_config L c ≡ ok m → Marshalled L c m
  unfolding marshal_config
  marshal_config-Marshalled c m h = ground arith

  parse_private_key_pkcs8 :
      (k : L.PrivateKey) (d : Bytes)
      → L.parse_pkcs8_private_key d ≡ ok k
      → parse_private_key L d ≡ ok k
  unfolding parse_private_key
  parse_private_key_pkcs8 k d h = rw (h, parse_private_key) refl

  -- `Unmarshal` with every call that it makes successful.
  unmarshal-Read :
      (laws : ReadsBack L) (c : Config L) (m : Dict Bytes) (r : Marshalled L c m)
      (entries : Dict Bytes)
      → lookup config_key entries ≡ some r.text
      → lookup private_key entries ≡ some r.pem
      → lookup public_key entries
        ≡ some (or_nil (L.pem_encode_to_memory (L.pem_block (codes "PUBLIC KEY") r.key_der)))
      → unmarshal L entries
        ≡ ok
            (record c { pub_key = L.signer_public c.priv_key; fulcio_certs = unique_certs entries })
  unfolding unmarshal decrypt_existing_private_key multi_config single as_pem_key_file
  unmarshal-Read laws c m r entries h i j =
      let (b, decoded, opened) =
        laws.encrypted (codes "PRIVATE KEY") r.pkcs8 c.priv_key_password r.pem r.block r.locked
          r.encoded in
      let parsed =
        parse_private_key_pkcs8 c.priv_key r.pkcs8 (laws.pkcs8 c.priv_key r.pkcs8 r.plain) in
      let read = laws.proto (multi_config L c r.message r.key_der) r.text r.written in
      let unboxed =
        laws.any (record { path = private_key_file; password = c.priv_key_password }) r.message
          r.boxed in
      let known = laws.public r.pubkey r.key_der r.der in
      rw (h, i, j, read, known, unboxed, decoded, opened, parsed, r.signer) refl

-- Reading back with `Unmarshal` what `MarshalConfig` wrote, in whatever order the secret's entries come,
-- gives the configuration again: the key, its password, the log's id and prefix and the server's address
-- are the ones that were written, the public key is that of the private key, and the certificates are
-- the same ones, each once. The encodings that the program calls must be read back by their decoders.
pub unmarshal-marshal_config :
    (L : Library) (laws : ReadsBack L) (c : Config L) (m entries : Dict Bytes)
    → marshal_config L c ≡ ok m
    → IsMap entries
    → ((k : Bytes) → lookup k entries ≡ lookup k m)
    → (certs : List Bytes) × (unmarshal L entries
        ≡ ok (record c { pub_key = L.signer_public c.priv_key; fulcio_certs = certs }))
      × ((x : Bytes) → In x certs ↔ In x c.fulcio_certs)
      × Distinct certs
unmarshal-marshal_config L laws c m entries h d same =
    let r = marshal_config-Marshalled L c m h in
    let public = or_nil (L.pem_encode_to_memory (L.pem_block (codes "PUBLIC KEY") r.key_der)) in
    let at : (k : Bytes)
        → lookup k entries ≡ lookup k (written_entries r.text r.pem public c.fulcio_certs) =
      λ k. same k ∙ ap (lookup k) r.entries in
    let no_legacy =
      at legacy_root_ca_key ∙ lookup-written_legacy r.text r.pem public c.fulcio_certs in
    (
      unique_certs entries,
      unmarshal-Read L laws c m r entries
          (at config_key ∙ lookup-written_config r.text r.pem public c.fulcio_certs)
          (at private_key ∙ lookup-written_private r.text r.pem public c.fulcio_certs)
          (at public_key ∙ lookup-written_public r.text r.pem public c.fulcio_certs),
      λ x. (
        λ i.
            let (k, f, e) = (unique_certs-In x entries d no_legacy).0 i in
            (written_entries-In x r.text r.pem public c.fulcio_certs).0 (k, f, sym (at k) ∙ e),
        λ i.
            let (k, f, e) = (written_entries-In x r.text r.pem public c.fulcio_certs).1 i in
            (unique_certs-In x entries d no_legacy).1 (k, f, at k ∙ e),
      ),
      unique_certs-Distinct entries,
    )
