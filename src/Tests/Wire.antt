-- ===== src/Tests/Wire.antt =====
-- A concrete library for the log's configuration, whose encodings are read back.
use scaffolding.Base.{
  ℕ, zero, suc, ◌≡◌, refl, sym, ◌∙◌, Bytes, Option, none, some, List, [], ◌∷◌, ◌++◌, Result, ok,
  err, errorf, ◌==◌, if◌then◌else◌, arith, ok-injective, some-injective, ◌>>=◌, length, ap, codes,
}
use scaffolding.Base.Int.{ℤ, pos, negsuc}
use scaffolding.Certs.{CertCodec}
use scaffolding.Ctlog.External.{
  Library, PemKeyFile, pem_key_file, LogConfig, LogBackend, LogMultiConfig,
}
use scaffolding.Ctlog.Marshal.RoundTrip.{ReadsBack}

-- A text is its length, then its bytes.
abbrev put : Bytes → Bytes → Bytes
put s rest = length s ∷ (s ++ rest)

unfoldable take_bytes : ℕ → Bytes → Result (Bytes × Bytes)
take_bytes zero s = ok ([], s)
take_bytes (suc n) [] = err (errorf "short")
take_bytes (suc n) (c ∷ s) = take_bytes n s >>= λ (t, r). ok (c ∷ t, r)

unfoldable take_text : Bytes → Result (Bytes × Bytes)
unfolding take_bytes
take_text [] = err (errorf "short")
take_text (n ∷ s) = take_bytes n s

take_bytes-append : (s rest : Bytes) → take_bytes (length s) (s ++ rest) ≡ ok (s, rest)
unfolding take_bytes
take_bytes-append [] rest = refl
take_bytes-append (c ∷ s) rest = rw (take_bytes-append s rest) refl

take_text-put : (s rest : Bytes) → take_text (put s rest) ≡ ok (s, rest)
unfolding take_text
take_text-put s rest = take_bytes-append s rest

unfoldable put_each : List Bytes → Bytes → Bytes
put_each [] rest = rest
put_each (s ∷ ss) rest = put s (put_each ss rest)

unfoldable take_each : ℕ → Bytes → Result (List Bytes × Bytes)
unfolding take_text
take_each zero s = ok ([], s)
take_each (suc n) s = take_text s >>= λ (t, r). take_each n r >>= λ (ts, r'). ok (t ∷ ts, r')

take_each-put_each :
    (ss : List Bytes) (rest : Bytes) → take_each (length ss) (put_each ss rest) ≡ ok (ss, rest)
unfolding take_each put_each
take_each-put_each [] rest = refl
take_each-put_each (s ∷ ss) rest =
    rw (take_text-put s (put_each ss rest)) (rw (take_each-put_each ss rest) refl)

abbrev sign : ℤ → ℕ
sign (pos n) = 0
sign (negsuc n) = 1

abbrev magnitude : ℤ → ℕ
magnitude (pos n) = n
magnitude (negsuc n) = n

abbrev signed : ℕ → ℕ → ℤ
signed zero n = pos n
signed (suc _) n = negsuc n

signed-sign : (z : ℤ) → signed (sign z) (magnitude z) ≡ z
signed-sign (pos n) = refl
signed-sign (negsuc n) = refl

unfoldable put_log : LogConfig PemKeyFile → LogBackend → Bytes
unfolding put_each
put_log c b =
    length c.roots_pem_file
    ∷ length c.ext_key_usages
    ∷ sign c.log_id
    ∷ magnitude c.log_id
    ∷ put c.prefix (
        put c.private_key.path (
          put c.private_key.password (
            put c.public_key_der (
              put c.log_backend_name (
                put b.name (
                  put b.backend_spec
                    (put_each c.roots_pem_file (put_each c.ext_key_usages []))))))))

-- Only a message of one log and one backend is written.
unfoldable pub write_parts :
    Option (List (LogConfig PemKeyFile)) → Option (List LogBackend) → Result Bytes
unfolding put_log
write_parts (some (c ∷ [])) (some (b ∷ [])) = ok (put_log c b)
write_parts _ _ = err (errorf "one log and one backend")

unfoldable pub read_message : Bytes → Result (LogMultiConfig PemKeyFile)
unfolding take_text take_each
read_message (n ∷ m ∷ s ∷ i ∷ text) = do
  (prefix, ra) ← take_text text
  (path, rb) ← take_text ra
  (password, rc) ← take_text rb
  (der, rd) ← take_text rc
  (backend, re) ← take_text rd
  (name, rf) ← take_text re
  (spec, rg) ← take_text rf
  (roots, rh) ← take_each n rg
  (usages, ri) ← take_each m rh
  ok (record {
    log_configs = some (
        record {
          log_id = signed s i;
          prefix = prefix;
          roots_pem_file = roots;
          private_key = record { path = path; password = password };
          public_key_der = der;
          log_backend_name = backend;
          ext_key_usages = usages;
        }
        ∷ []);
    backends = some (record { name = name; backend_spec = spec } ∷ []);
  })
read_message _ = err (errorf "short")

read_message-put_log :
    (c : LogConfig PemKeyFile) (b : LogBackend)
    → read_message (put_log c b)
      ≡ ok (record { log_configs = some (c ∷ []); backends = some (b ∷ []) })
unfolding read_message put_log
read_message-put_log c b =
    rw
      (
        take_text-put, take_text-put, take_text-put, take_text-put, take_text-put, take_text-put,
        take_text-put, take_each-put_each, take_each-put_each, signed-sign,
      )
      refl

read_message-write_parts :
    (cs : Option (List (LogConfig PemKeyFile))) (bs : Option (List LogBackend)) (t : Bytes)
    → write_parts cs bs ≡ ok t
    → read_message t ≡ ok (record { log_configs = cs; backends = bs })
unfolding write_parts
read_message-write_parts (some (c ∷ [])) (some (b ∷ [])) t h =
    ap read_message (sym (ok-injective h)) ∙ read_message-put_log c b
read_message-write_parts _ _ t h = absurd (cc)

-- A locked block is the password and what it locks.
unfoldable pub read_block : Bytes → Option (Bytes × Bytes)
unfolding take_text
read_block s = block (take_text s >>= λ (p, r). take_text r >>= λ (d, r'). ok (p, d))
  where
    block : Result (Bytes × Bytes) → Option (Bytes × Bytes)
    block (ok b) = some b
    block _ = none

read_block-put : (p d : Bytes) → read_block (put p (put d [])) ≡ some (p, d)
unfolding read_block
read_block-put p d = rw (take_text-put, take_text-put) refl

abbrev decrypt : Bytes × Bytes → Bytes → Result Bytes
decrypt (p, d) password = if p == password then ok d else err (errorf "wrong password")

decrypt_same : (p d : Bytes) → decrypt (p, d) p ≡ ok d
decrypt_same p d = ground arith

abbrev body_of : Option (Bytes × Bytes) → Result Bytes
body_of none = err (errorf "no block")
body_of (some b) = ok b.1

abbrev read_public : Bytes → Result Bytes
read_public s = body_of (read_block s)

read_public-put : (p d : Bytes) → read_public (put p (put d [])) ≡ ok d
read_public-put p d = ap body_of (read_block-put p d)

-- Certificates are numbers, and a text is the list of its certificates.
abbrev pub numbers : CertCodec
numbers = record { Cert = ℕ; unmarshal = ok; marshal = λ c. ok (c ∷ []) }

abbrev pub wire : Library
wire = record {
  PrivateKey = Bytes;
  PublicKey = Bytes;
  Any = PemKeyFile;
  Block = Bytes × Bytes;
  certs = numbers;
  signer_public = some;
  any_new = ok;
  any_unmarshal_new = λ a. ok (pem_key_file a);
  prototext_marshal = λ m. write_parts m.log_configs m.backends;
  prototext_unmarshal = read_message;
  pem_block = λ kind d. (kind, d);
  pem_encode_to_memory = λ (p, d). some (put p (put d []));
  pem_decode = read_block;
  marshal_pkix_public_key = ok;
  marshal_pkcs8_private_key = ok;
  encrypt_pem_block = λ kind d password. ok (password, d);
  decrypt_pem_block = decrypt;
  parse_pkcs8_private_key = ok;
  parse_pkcs1_private_key = λ d. err (errorf "no PKCS #1 key");
  parse_ec_private_key = λ d. err (errorf "no EC key");
  unmarshal_pem_to_public_key = read_public;
}

wire-encrypted :
    (d password pem : Bytes) (b : Bytes × Bytes)
    → ok (password, d) ≡ ok b
    → some (put b.0 (put b.1 [])) ≡ some pem
    → (b' : Bytes × Bytes) × (read_block pem ≡ some b') × (decrypt b' password ≡ ok d)
wire-encrypted d password pem b h e = (
  (password, d),
  ap read_block (sym (some-injective _ _ e))
      ∙ ap (λ (b : Bytes × Bytes). read_block (put b.0 (put b.1 []))) (sym (ok-injective h))
      ∙ read_block-put password d,
  decrypt_same password d,
)

pub wire-ReadsBack : ReadsBack wire
wire-ReadsBack = record {
  pkcs8 = λ k d h. ap ok (sym (ok-injective h));
  encrypted = λ kind d password pem b h e. wire-encrypted d password pem b h e;
  proto = λ m t h. read_message-write_parts m.log_configs m.backends t h;
  any = λ p a h. ap (λ q. ok (pem_key_file q)) (sym (ok-injective h));
  public = λ k d h. read_public-put (codes "PUBLIC KEY") d ∙ ap ok (sym (ok-injective h));
}
