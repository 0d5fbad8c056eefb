-- ===== src/Http.antt =====
-- The helpers that answer HTTP requests: actions/setup-sigstore-env/fakeoidc/main.go and
-- tools/getoidctoken/cmd/getoidctoken/main.go.
pub mod Issuer
pub mod Token
pub mod Main
use scaffolding.Base.{
  ℕ, ◌+◌, ◌*◌, Bytes, Bool, true, false, Option, none, some, List, [], ◌∷◌, ◌++◌, codes, Error,
  Result, ok, err, panic, exit, eqb, ◌==◌, if◌then◌else◌,
}
use scaffolding.Base.Dict.{erase, lookup}

-- A response as a handler writes it through `net/http`: the status, 0 while there is none, the
-- headers, whose names it stores in their canonical form, those of them that were there when the status
-- was written, and the body. `net/http` adds others, of which `content_type` gives one.
pub record Response : Type 0 where
  pub status : ℕ
  pub headers : List (Bytes × Bytes)
  pub sent : List (Bytes × Bytes)
  pub body : Bytes

abbrev pub new_response : Response
new_response = record { status = 0; headers = []; sent = []; body = [] }

-- `w.WriteHeader`: only the first one counts.
unfoldable pub write_header : ℕ → Response → Response
write_header status r = if eqb r.status 0 then record r { status = status; sent = r.headers } else r

-- The header `Content-Type` of the response that the client gets: if the handler has set none, `Write`
-- adds what `DetectContentType` says of the body, of which it reads 512 bytes at most.
unfoldable pub content_type : (Bytes → Bytes) → Response → Option Bytes
unfolding lookup
content_type detect r = elim (lookup (codes "Content-Type") r.sent) [
  | some v ↦ some v
  | none ↦ if r.body == [] then none else some (detect r.body)
]

-- `w.Header().Add`
unfoldable pub add_header : Bytes → Bytes → Response → Response
add_header k v r = record r { headers = r.headers ++ ((k, v) ∷ []) }

-- `w.Write`, which sends the status 200 if there is none.
unfoldable pub write_body : Bytes → Response → Response
unfolding write_header
write_body s r = let r' = write_header 200 r in record r' { body = r'.body ++ s }

-- `w.Header().Set`
unfoldable pub set_header : Bytes → Bytes → Response → Response
unfolding erase
set_header k v r = record r { headers = erase k r.headers ++ ((k, v) ∷ []) }

-- `http.Error` with the text of an error, to which it adds a line feed.
unfoldable pub http_error : Bytes → ℕ → Response → Response
unfolding write_header write_body set_header
http_error text status r = write_body (text ++ (10 ∷ [])) (
    write_header status (
      set_header (codes "X-Content-Type-Options") (codes "nosniff")
        (set_header (codes "Content-Type") (codes "text/plain; charset=utf-8") r)))

abbrev pub internal_server_error : ℕ
internal_server_error = 500

-- A call with the text of its error.
pub data Reply : Type 0 where
  value : Bytes → Reply
  failed : Bytes → Reply

-- `getToken`; `lost` is what was written of the body and the text of the error, if it could not be
-- written whole.
unfoldable pub get_token : Reply → Option (Bytes × Bytes) → Response → Response
unfolding http_error write_body
get_token (failed text) lost r = http_error text internal_server_error r
get_token (value content) none r = write_body content r
get_token (value content) (some (part, text)) r =
    http_error text internal_server_error (write_body part r)

pub record Request : Type 0 where
  pub host : Bytes
  pub path : Bytes
  -- the first value of `issuer` in the query, or the empty text
  pub issuer : Bytes

-- `config` of fakeoidc
pub record OidcConfig : Type 0 where
  pub issuer : Bytes
  pub jwks_uri : Bytes

-- `jwt.Claims`, with the times in seconds, and `customClaims`
pub record Claims : Type 0 where
  pub issuer : Bytes
  pub issued_at : ℕ
  pub expiry : ℕ
  pub subject : Bytes
  pub audience : List Bytes

pub record CustomClaims : Type 0 where
  pub email : Bytes
  pub email_verified : Bool

-- `json.Marshal`, the key set of the server's key as JSON, and the signer of tokens; the clock is
-- read twice. A path that has no handler is answered by `net/http`.
pub record Oidc : Type 0 where
  pub marshal_config : OidcConfig → Reply
  pub marshal_keys : Reply
  pub serialize : Claims → CustomClaims → Reply
  pub now : ℕ
  pub then_now : ℕ
  pub other_path : Request → Response → Response

-- The value of a call that failed is empty.
abbrev pub bytes_of : Reply → Bytes
bytes_of (value s) = s
bytes_of (failed text) = []

-- After an error the handlers go on.
unfoldable pub report : Reply → Response → Response
unfolding http_error
report (value s) r = r
report (failed text) r = http_error text internal_server_error r

unfoldable pub token_issuer : Request → Bytes
token_issuer q = if q.issuer == [] then codes "http://fakeoidc:8080" else q.issuer

module _ (O : Oidc) where
  unfoldable pub claims_of : Request → Claims × CustomClaims
  unfolding token_issuer
  claims_of q = (
    record {
      issuer = token_issuer q;
      issued_at = O.now;
      expiry = O.then_now + 30 * 60;
      subject = codes "foo@bar.com";
      audience = codes "sigstore" ∷ [];
    },
    record { email = codes "foo@bar.com"; email_verified = true },
  )

  -- `token`
  unfoldable pub token : Request → Response → Response
  unfolding claims_of report write_body
  token q r =
      let signed = O.serialize (claims_of q).0 (claims_of q).1 in
      write_body (bytes_of signed) (report signed r)

  -- `keys`
  unfoldable pub keys : Request → Response → Response
  unfolding report write_body add_header
  keys q r =
      write_body (bytes_of O.marshal_keys)
        (add_header (codes "Content-Type") (codes "application/json") (report O.marshal_keys r))

  unfoldable pub config_of : Request → OidcConfig
  config_of q =
      let issuer : Bytes = codes "http://" ++ q.host in
      record { issuer = issuer; jwks_uri = issuer ++ codes "/keys" }

  -- `wellKnown`
  unfoldable pub well_known : Request → Response → Response
  unfolding config_of report write_body add_header
  well_known q r =
      let cfg = O.marshal_config (config_of q) in
      write_body (bytes_of cfg)
        (add_header (codes "Content-Type") (codes "application/json") (report cfg r))

  -- The handler that `main` registers for a path.
  unfoldable pub serve : Request → Response → Response
  unfolding token keys well_known
  serve q r =
      if q.path == codes "/token"
      then token q r
      else if q.path == codes "/keys"
      then keys q r
      else if q.path == codes "/.well-known/openid-configuration"
      then well_known q r
      else O.other_path q r
