-- ===== src/Tink/Written.antt =====
-- The three files that are written belong to one key.
use scaffolding.Base.{◌≡◌, ◌≢◌, ap, ◌∙◌, Bytes, Option, some, [], ok, or_fatal, or_fatal-eq-ok}
use scaffolding.Base.Base64.{encode_to_string}
use scaffolding.Cluster.{continue-ok, continue-elim, handle}
use scaffolding.Files.{FileSystem, ReadsFiles, open_file, write, file_call, file_call-eq-ok}
use scaffolding.Repo.External.{PublicKey}
use scaffolding.Tink.{
  Tink, TinkFlags, check_tink_flags, new_keyset, public_part, write_out, close_files, create_keyset,
}

module _ (T : Tink) (flags : TinkFlags) (F : FileSystem) (K : ReadsFiles F) where
  -- Both calls have succeeded.
  write_out-read :
      (p s : Bytes) (σ : F.State)
      → (write_out T flags F p s σ).0 ≡ ok tt
      → K.read p (write_out T flags F p s σ).1 ≡ some s
  unfolding write_out
  write_out-read p s σ h =
      let opens = file_call F (open_file p 0o666) σ in
      let (u, e, h', same) =
        continue-ok (or_fatal opens.0) (λ _. handle or_fatal (file_call F (write p s))) opens.1 tt
          h in
      ap (K.read p) same
      ∙ K.appended p [] s opens.1
          (K.opened p 0o666 σ (file_call-eq-ok F (open_file p 0o666) σ (or_fatal-eq-ok opens.0 e)))
          (file_call-eq-ok F (write p s) opens.1
            (or_fatal-eq-ok (file_call F (write p s) opens.1).0 h'))

  write_out-others :
      (p s q : Bytes) (σ : F.State) → q ≢ p → K.read q (write_out T flags F p s σ).1 ≡ K.read q σ
  unfolding write_out
  write_out-others p s q σ n =
      let opens = file_call F (open_file p 0o666) σ in
      continue-elim (λ τ. K.read q τ ≡ K.read q σ) (or_fatal opens.0)
        (λ _. handle or_fatal (file_call F (write p s))) opens.1
        (K.others (open_file p 0o666) q σ n)
        (λ _. K.others (write p s) q opens.1 n ∙ K.others (open_file p 0o666) q σ n)

  close_files_same : (q : Bytes) (σ : F.State) → K.read q (close_files T flags F σ).1 ≡ K.read q σ
  unfolding close_files
  close_files_same q σ =
      K.closed flags.out q _ ∙ K.closed flags.public_key_out q _ ∙ K.closed flags.key_id_out q σ

  -- The texts of the three files, in order.
  abbrev pub AreWritten : Bytes → Bytes → Bytes → F.State → F.State → Type 0
  AreWritten keyset encoded log_id σ τ =
      (K.read flags.out τ ≡ some keyset)
      × (K.read flags.public_key_out τ ≡ some encoded)
      × (K.read flags.key_id_out τ ≡ some (encode_to_string log_id))
      × ((q : Bytes)
          → q ≢ flags.out
          → q ≢ flags.public_key_out
          → q ≢ flags.key_id_out
          → K.read q τ ≡ K.read q σ)

  -- After a success the first file holds a new keyset in its encrypted form, and the other two hold
  -- the encoded public key of this keyset and the encoded id of the log with this key; no other file
  -- has changed. The three paths are different. Calls on files may fail: each that succeeds has its
  -- effect, none changes another file, and to close a file changes none.
  pub create_keyset-AreWritten :
      (σ : F.State)
      → flags.out ≢ flags.public_key_out
      → flags.out ≢ flags.key_id_out
      → flags.public_key_out ≢ flags.key_id_out
      → (create_keyset T flags F σ).0 ≡ ok tt
      → (handle : T.Handle) × (keyset encoded log_id : Bytes) × (key : Option PublicKey)
        × (new_keyset T flags ≡ ok (handle, keyset))
        × (public_part T flags handle ≡ ok (key, encoded))
        × (T.key_hash flags.origin key ≡ ok log_id)
        × AreWritten keyset encoded log_id σ (create_keyset T flags F σ).1
  unfolding create_keyset
  create_keyset-AreWritten σ n1 n2 n3 h =
      let (u, e1, h1, s1) = continue-ok (check_tink_flags flags) _ σ tt h in
      let ((handle, keyset), e2, h2, s2) = continue-ok (new_keyset T flags) _ σ tt h1 in
      let w1 = write_out T flags F flags.out keyset σ in
      let (v, e3, h3, s3) = continue-ok w1.0 _ w1.1 tt h2 in
      let ((key, encoded), e4, h4, s4) = continue-ok (public_part T flags handle) _ w1.1 tt h3 in
      let w2 = write_out T flags F flags.public_key_out encoded w1.1 in
      let (x, e5, h5, s5) = continue-ok w2.0 _ w2.1 tt h4 in
      let (log_id, e6, h6, s6) =
        continue-ok (or_fatal (T.key_hash flags.origin key)) _ w2.1 tt h5 in
      let w3 = write_out T flags F flags.key_id_out (encode_to_string log_id) w2.1 in
      let (y, e7, h7, s7) = continue-ok w3.0 (λ _. close_files T flags F) w3.1 tt h6 in
      let st = s1 ∙ s2 ∙ s3 ∙ s4 ∙ s5 ∙ s6 ∙ s7 in
      let end = λ (q : Bytes). ap (K.read q) st ∙ close_files_same q w3.1 in
      (
        handle,
        keyset,
        encoded,
        log_id,
        key,
        e2,
        e4,
        or_fatal-eq-ok _ e6,
        (
          end flags.out
              ∙ write_out-others flags.key_id_out _ flags.out w2.1 n2
              ∙ write_out-others flags.public_key_out _ flags.out w1.1 n1
              ∙ write_out-read flags.out keyset σ e3,
          end flags.public_key_out
              ∙ write_out-others flags.key_id_out _ flags.public_key_out w2.1 n3
              ∙ write_out-read flags.public_key_out encoded w1.1 e5,
          end flags.key_id_out ∙ write_out-read flags.key_id_out (encode_to_string log_id) w2.1 e7,
          λ q m1 m2 m3.
              end q
              ∙ write_out-others flags.key_id_out _ q w2.1 m3
              ∙ write_out-others flags.public_key_out _ q w1.1 m2
              ∙ write_out-others flags.out _ q σ m1,
        ),
      )
