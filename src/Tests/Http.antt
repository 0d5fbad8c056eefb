-- ===== src/Tests/Http.antt =====
-- A server of tokens in memory, whose key set cannot be encoded.
use scaffolding.Base.{Bytes, ◌≡◌, refl, none, [], ◌∷◌, ◌++◌, codes, bytes_dec}
use scaffolding.Http.{
  Claims, CustomClaims, Reply, new_response, value, failed, Request, Oidc, token_issuer, serve,
}
use scaffolding.Http.Main.{token_writer}
use scaffolding.Http.Token.{IsSent, AreClaims, at, keys_path, sniffed, json, serve-IsSent}

abbrev oidc : Oidc
oidc = record {
  marshal_config = λ c. value (c.issuer ++ (44 ∷ []) ++ c.jwks_uri);
  marshal_keys = failed (codes "no key");
  serialize = λ c e. value c.issuer;
  now = 100;
  then_now = 101;
  other_path = λ q r. r;
}

abbrev request : Request
request = record { host = codes "localhost:8080"; path = codes "/token"; issuer = codes "http://x" }

serves : (serve oidc request new_response).body ≡ codes "http://x"
unfolding serve token_issuer bytes_dec
serves = refl

-- No file can be read.
abbrev read_file : Bytes → Reply
read_file name = failed (codes "no file")

abbrev detect : Bytes → Bytes
detect s = codes "text/plain; charset=utf-8"

serve-IsSent_example :
    ((c : Claims) × (e : CustomClaims) × AreClaims oidc request c e
      × IsSent detect
          (sniffed detect)
          (oidc.serialize c e)
          (serve oidc (at (codes "/token") request) new_response))
    × IsSent detect json oidc.marshal_keys (serve oidc (at keys_path request) new_response)
    × IsSent detect json
        (oidc.marshal_config (record {
          issuer = codes "http://" ++ request.host;
          jwks_uri = (codes "http://" ++ request.host) ++ keys_path;
        }))
        (serve oidc (at (codes "/.well-known/openid-configuration") request) new_response)
    × IsSent detect
        (sniffed detect)
        (read_file (codes "/token"))
        (token_writer read_file (codes "/token") none new_response)
serve-IsSent_example = serve-IsSent oidc detect request read_file (codes "/token")
