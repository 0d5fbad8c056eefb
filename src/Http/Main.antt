-- ===== src/Http/Main.antt =====
-- How the two helpers start: the key of fakeoidc, and the servers, whose call of `http.ListenAndServe`
-- ends with an error if it ends.
use scaffolding.Base.{Bytes, Option, Error, Result, ok, or_fatal, or_panic, ◌>>=◌}
use scaffolding.Files.{outcome}
use scaffolding.Http.{Response, Reply, get_token}

-- `rsa.GenerateKey` and `jose.NewSigner`, with RS256, on the key.
pub record KeyMaker : Type 1 where
  pub Key : Type 0
  pub Signer : Type 0
  pub generate_key : Result Key
  pub new_signer : Key → Result Signer

-- `init` of fakeoidc: the key and its signer.
unfoldable pub init_signer : (M : KeyMaker) → Result (M.Key × M.Signer)
init_signer M =
    or_fatal M.generate_key >>= λ pk. or_fatal (M.new_signer pk) >>= λ signer. ok (pk, signer)

-- `main` of fakeoidc, once its handlers are registered
unfoldable pub fakeoidc_main : Option Error → Result (Unit {0})
fakeoidc_main listen = or_fatal (outcome listen)

-- `tokenWriter`: the handler for a file, by how files are read.
unfoldable pub token_writer : (Bytes → Reply) → Bytes → Option (Bytes × Bytes) → Response → Response
unfolding get_token
token_writer read_file file_name lost r = get_token (read_file file_name) lost r

-- `main` of getoidctoken, by the variable that names the file
unfoldable pub getoidctoken_main : Result Bytes → Option Error → Result (Unit {0})
getoidctoken_main env listen = or_fatal env >>= λ file_name. or_panic "%v" (outcome listen)
