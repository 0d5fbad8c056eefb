-- ===== src/Tests/Keyset.antt =====
-- A keyset whose keys are short texts.
use scaffolding.Base.{
  ◌≡◌, ◌≢◌, refl, Bytes, Option, [], ◌∷◌, codes, ok, ==-ne, bytes_dec, has_prefix,
}
use scaffolding.Base.Base64.{encode_to_string}
use scaffolding.Repo.External.{PublicKey, ed25519}
use scaffolding.Tink.{
  Tink, TinkFlags, KeyTemplate, tink_ed25519, new_keyset, public_part, create_keyset,
}
use scaffolding.Tink.Written.{AreWritten, create_keyset-AreWritten}
use scaffolding.Tests.Copies.{files, files-ReadsFiles}

encodes : encode_to_string (codes "sigstore!!") ≡ codes "c2lnc3RvcmUhIQ=="
unfolding encode_to_string
encodes = refl

abbrev tink : Tink
tink = record {
  Client = Bytes;
  Aead = Bytes;
  Handle = KeyTemplate;
  new_client = ok;
  get_aead = λ c uri. ok uri;
  new_handle = ok;
  write_keyset = λ h a. ok (codes "encrypted");
  public = ok;
  primary = λ h. ok (tink_ed25519 (1 ∷ 2 ∷ 3 ∷ []));
  new_public_key = λ c point. ok (ed25519 point);
  marshal_pkix_public_key = λ k. ok (7 ∷ 7 ∷ []);
  key_hash = λ origin k. ok origin;
}

abbrev flags : TinkFlags
flags = record {
  key_template = codes "ED25519";
  origin = codes "log2025-1.rekor.example";
  key_encryption_key_uri = codes "gcp-kms://projects/p";
  out = codes "enc-keyset.cfg";
  public_key_out = codes "pubkey.b64";
  key_id_out = codes "logid.b64";
}

out-ne-public : flags.out ≢ flags.public_key_out
unfolding bytes_dec
out-ne-public = ==-ne flags.out flags.public_key_out refl

out-ne-id : flags.out ≢ flags.key_id_out
unfolding bytes_dec
out-ne-id = ==-ne flags.out flags.key_id_out refl

public-ne-id : flags.public_key_out ≢ flags.key_id_out
unfolding bytes_dec
public-ne-id = ==-ne flags.public_key_out flags.key_id_out refl

succeeds : (create_keyset tink flags files []).0 ≡ ok tt
unfolding create_keyset bytes_dec has_prefix
succeeds = refl

create_keyset-AreWritten_example :
    (handle : KeyTemplate) × (keyset encoded log_id : Bytes) × (key : Option PublicKey)
    × (new_keyset tink flags ≡ ok (handle, keyset))
    × (public_part tink flags handle ≡ ok (key, encoded))
    × (tink.key_hash flags.origin key ≡ ok log_id)
    × AreWritten tink flags files files-ReadsFiles keyset encoded log_id []
        (create_keyset tink flags files []).1
create_keyset-AreWritten_example =
    create_keyset-AreWritten tink flags files files-ReadsFiles [] out-ne-public out-ne-id
      public-ne-id succeeds
