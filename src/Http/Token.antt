-- ===== src/Http/Token.antt =====
-- What the handlers send, with an error and without one.
use scaffolding.Base.{
  ◌⊎◌, inl, inr, Bool-cases, ==-eq, ==-ne, ◌+◌, ◌≢◌, Option, some, true, ◌==◌, if◌then◌else◌, ◌≡◌,
  refl, ap, Bytes, none, [], ◌∷◌, ◌++◌, codes, bytes_dec,
}
use scaffolding.Http.{
  Response, new_response, Reply, value, failed, internal_server_error, Request, Oidc, claims_of,
  token, keys, config_of, well_known, get_token, report, write_body, http_error, bytes_of,
  add_header, write_header, set_header, content_type, Claims, CustomClaims, token_issuer, serve,
}
use scaffolding.Base.Dict.{erase, lookup}
use scaffolding.Http.Main.{token_writer}

-- What a client gets: the value with the status 200 and the content type that belongs to it, or, on
-- an error, its text in a line of its own with the status 500 as plain text.
abbrev pub IsSent : (Bytes → Bytes) → (Bytes → Option Bytes) → Reply → Response → Type 0
IsSent detect type_of (value s) r =
    (r.status ≡ 200) × (r.body ≡ s) × (content_type detect r ≡ type_of s)
IsSent detect type_of (failed text) r =
    (r.status ≡ internal_server_error)
    × (r.body ≡ text ++ (10 ∷ []))
    × (content_type detect r ≡ some (codes "text/plain; charset=utf-8"))

-- The type of a text that `net/http` finds out, and that of JSON.
abbrev pub sniffed : (Bytes → Bytes) → Bytes → Option Bytes
sniffed detect s = if s == [] then none else some (detect s)

abbrev pub json : Bytes → Option Bytes
json s = some (codes "application/json")

append-nil : (xs : Bytes) → xs ++ [] ≡ xs
append-nil [] = refl
append-nil (x ∷ xs) = ap (λ s. x ∷ s) (append-nil xs)

module _ (detect : Bytes → Bytes) where
  plain-IsSent :
      (a : Reply)
      → IsSent detect (sniffed detect) a (write_body (bytes_of a) (report a new_response))
  unfolding write_body report http_error write_header set_header erase bytes_dec content_type lookup
  plain-IsSent (value s) = (refl, refl, refl)
  plain-IsSent (failed text) = (refl, append-nil (text ++ (10 ∷ [])), refl)

  json-IsSent :
      (a : Reply)
      → IsSent detect json a (
          write_body
            (bytes_of a)
            (add_header (codes "Content-Type") (codes "application/json") (report a new_response)))
  unfolding write_body add_header report http_error write_header set_header erase bytes_dec
      content_type lookup
  json-IsSent (value s) = (refl, refl, refl)
  json-IsSent (failed text) = (refl, append-nil (text ++ (10 ∷ [])), refl)

  file-IsSent : (a : Reply) → IsSent detect (sniffed detect) a (get_token a none new_response)
  unfolding get_token write_body http_error write_header set_header erase bytes_dec content_type
      lookup
  file-IsSent (value s) = (refl, refl, refl)
  file-IsSent (failed text) = (refl, refl, refl)

-- The claims of a token: the issuer that was asked for, or the server itself, half an hour, one
-- verified address that is the subject too, and the audience of Sigstore.
abbrev pub AreClaims : Oidc → Request → Claims → CustomClaims → Type 0
AreClaims O q c e =
    (((q.issuer ≢ []) × (c.issuer ≡ q.issuer))
      ⊎ ((q.issuer ≡ []) × (c.issuer ≡ codes "http://fakeoidc:8080")))
    × (c.issued_at ≡ O.now)
    × (c.expiry ≡ O.then_now + 1800)
    × (c.subject ≡ e.email)
    × (e.email ≡ codes "foo@bar.com")
    × (e.email_verified ≡ true)
    × (c.audience ≡ codes "sigstore" ∷ [])

issuer-cases :
    (q : Request)
    → ((q.issuer ≢ []) × (token_issuer q ≡ q.issuer))
      ⊎ ((q.issuer ≡ []) × (token_issuer q ≡ codes "http://fakeoidc:8080"))
unfolding token_issuer bytes_dec
issuer-cases q = elim (Bool-cases (q.issuer == [])) [
  | inl e ↦ inr (==-eq q.issuer [] e, rw e refl)
  | inr e ↦ inl (==-ne q.issuer [] e, rw e refl)
]

claims_of-AreClaims : (O : Oidc) (q : Request) → AreClaims O q (claims_of O q).0 (claims_of O q).1
unfolding claims_of
claims_of-AreClaims O q = (issuer-cases q, refl, refl, refl, refl, refl, refl)

-- A request for another path of the server.
abbrev pub at : Bytes → Request → Request
at path q = record q { path = path }

abbrev pub keys_path : Bytes
keys_path = codes "/keys"

-- A client of fakeoidc gets a token with its claims at `/token`, at `/.well-known/openid-configuration`
-- a configuration that names the host that was asked as the issuer and, below it, the path at which
-- the client gets the keys; keys and configuration as JSON. A client of the token helper gets the
-- file, when it can be written. On an error each gets only the text of the error, although the
-- handlers of fakeoidc go on after it.
pub serve-IsSent :
    (O : Oidc) (detect : Bytes → Bytes) (q : Request) (read_file : Bytes → Reply)
    (file_name : Bytes)
    → ((c : Claims) × (e : CustomClaims) × AreClaims O q c e
        × IsSent detect
            (sniffed detect)
            (O.serialize c e)
            (serve O (at (codes "/token") q) new_response))
      × IsSent detect json O.marshal_keys (serve O (at keys_path q) new_response)
      × IsSent detect json
          (O.marshal_config (record {
            issuer = codes "http://" ++ q.host;
            jwks_uri = (codes "http://" ++ q.host) ++ keys_path;
          }))
          (serve O (at (codes "/.well-known/openid-configuration") q) new_response)
      × IsSent detect
          (sniffed detect)
          (read_file file_name)
          (token_writer read_file file_name none new_response)
unfolding serve token keys well_known config_of token_writer bytes_dec
serve-IsSent O detect q read_file file_name = (
  (
    (claims_of O q).0,
    (claims_of O q).1,
    claims_of-AreClaims O q,
    plain-IsSent detect (O.serialize (claims_of O q).0 (claims_of O q).1),
  ),
  json-IsSent detect O.marshal_keys,
  json-IsSent detect (O.marshal_config (config_of O q)),
  file-IsSent detect (read_file file_name),
)
