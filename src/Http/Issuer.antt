-- ===== src/Http/Issuer.antt =====
-- The issuer that a token names, and the one that the server states.
use mathlib.Core.List.{append_cancel_left}
use scaffolding.Base.{◌≡◌, ◌↔◌, refl, sym, ap, [], ◌++◌, codes, bytes_dec}
use scaffolding.Http.{Request, token_issuer, config_of, Oidc}

-- A token that is asked for the issuer that the configuration states at a host names this issuer. A
-- token that is asked for no issuer does so exactly at the host fakeoidc:8080.
pub token_issuer-config_of :
    (O : Oidc) (q : Request)
    → (token_issuer (record q { issuer = (config_of O q).issuer }) ≡ (config_of O q).issuer)
      × ((token_issuer (record q { issuer = [] }) ≡ (config_of O q).issuer)
          ↔ (q.host ≡ codes "fakeoidc:8080"))
unfolding token_issuer config_of bytes_dec
token_issuer-config_of O q = (
  refl,
  (
    λ h. sym (append_cancel_left (codes "http://") (codes "fakeoidc:8080") q.host h),
    λ h. ap (λ s. codes "http://" ++ s) (sym h),
  ),
)
