-- ===== src/Repo/Keys/Details.antt =====
-- Which public keys a log may have, and the ids under which the logs are kept.
use mathlib.Core.List.{head-eq_of_cons-eq, tail-eq_of_cons-eq}
use scaffolding.Base.{
  ℕ, ◌/◌, ◌%◌, ◌<◌, ◌≡◌, ◌↔◌, ◌⊎◌, inl, inr, refl, sym, subst, ok-injective, Option-cases, ◌∙◌,
  Bytes, [], ◌∷◌, ok, All, arith,
}
use scaffolding.Repo.External.{
  External, PublicKey, ecdsa, rsa, ed25519, other_key, p256, p384, p521, other_curve, Hash, sha256,
  sha384, sha512,
}
use scaffolding.Repo.Keys.{
  TransparencyLog, key_details, get_key_with_details, parse_key, hex_digit, hex_encode,
  pubkey_to_transparency_log_instance, log_of_der,
}

-- The keys that are supported, with the hash that goes with each. The size of an RSA key is in bytes.
pub data Supports : PublicKey → Hash → Type 0 where
  p256_key : (point : Bytes) → Supports (ecdsa p256 point) sha256
  p384_key : (point : Bytes) → Supports (ecdsa p384 point) sha384
  p521_key : (point : Bytes) → Supports (ecdsa p521 point) sha512
  rsa_key :
      (size : ℕ) (key : Bytes)
      → (size ≡ 256) ⊎ ((size ≡ 384) ⊎ (size ≡ 512))
      → Supports (rsa size key) sha256
  ed25519_key : (key : Bytes) → Supports (ed25519 key) sha512

rsa_size :
    (size : ℕ) (key : Bytes) (h : Hash)
    → key_details (rsa size key) ≡ ok h
    → ((size ≡ 256) ⊎ ((size ≡ 384) ⊎ (size ≡ 512))) × (sha256 ≡ h)
unfolding key_details
rsa_size size key h e = ground arith

key_details-Supports : (k : PublicKey) (h : Hash) → key_details k ≡ ok h → Supports k h
unfolding key_details
key_details-Supports (ecdsa p256 point) h e = subst (Supports _) (ok-injective e) (p256_key point)
key_details-Supports (ecdsa p384 point) h e = subst (Supports _) (ok-injective e) (p384_key point)
key_details-Supports (ecdsa p521 point) h e = subst (Supports _) (ok-injective e) (p521_key point)
key_details-Supports (ecdsa other_curve point) h e = absurd (cc)
key_details-Supports (rsa size key) h e =
    let (s, q) = rsa_size size key h e in subst (Supports _) q (rsa_key size key s)
key_details-Supports (ed25519 key) h e = subst (Supports _) (ok-injective e) (ed25519_key key)
key_details-Supports (other_key key) h e = absurd (cc)

Supports-key_details : (k : PublicKey) (h : Hash) → Supports k h → key_details k ≡ ok h
unfolding key_details
Supports-key_details _ _ (p256_key point) = refl
Supports-key_details _ _ (p384_key point) = refl
Supports-key_details _ _ (p521_key point) = refl
Supports-key_details _ _ (rsa_key size key s) = ground arith
Supports-key_details _ _ (ed25519_key key) = refl

hex_digit_inj : (m n : ℕ) → m < 16 → n < 16 → hex_digit m ≡ hex_digit n → m ≡ n
unfolding hex_digit
hex_digit_inj m n h k e = ground arith

-- Texts of bytes with the same hexadecimal form are the same.
pub hex_encode_inj :
    (s t : Bytes)
    → All (λ b. b < 256) s
    → All (λ b. b < 256) t
    → hex_encode s ≡ hex_encode t
    → s ≡ t
unfolding hex_encode
hex_encode_inj [] [] hs ht e = refl
hex_encode_inj [] (c ∷ t) hs ht e = absurd (cc)
hex_encode_inj (b ∷ s) [] hs ht e = absurd (cc)
hex_encode_inj (b ∷ s) (c ∷ t) hs ht e =
    let high =
      hex_digit_inj (b / 16) (c / 16) (omega (arith, hs.0)) (omega (arith, ht.0))
        (head-eq_of_cons-eq e) in
    let low =
      hex_digit_inj (b % 16) (c % 16) (omega arith) (omega arith)
        (head-eq_of_cons-eq (tail-eq_of_cons-eq e)) in
    let rest = hex_encode_inj s t hs.1 ht.1 (tail-eq_of_cons-eq (tail-eq_of_cons-eq e)) in
    let first : b ≡ c = omega (arith, high, low) in cc (first, rest)

module _ (E : External) where
  details_of :
      (key : Bytes) (k : PublicKey) (h : Hash)
      → get_key_with_details E key ≡ ok (k, h)
      → (parse_key E key ≡ ok k) × (key_details k ≡ ok h)
  unfolding get_key_with_details
  details_of key k h e = ground arith

  -- `getKeyWithDetails` succeeds exactly on what parses as a supported key, with that key and the
  -- hash that goes with it: a curve P-256, P-384 or P-521, an RSA modulus that takes 256, 384 or 512
  -- bytes, or Ed25519.
  pub get_key_with_details-Supports :
      (key : Bytes) (k : PublicKey) (h : Hash)
      → (get_key_with_details E key ≡ ok (k, h)) ↔ ((parse_key E key ≡ ok k) × Supports k h)
  unfolding get_key_with_details
  get_key_with_details-Supports key k h = (
    λ e. let (p, d) = details_of key k h e in (p, key_details-Supports k h d),
    λ (p, s). rw p (rw (Supports-key_details k h s) refl),
  )

  log_of_der-hex_encode :
      (origin der : Bytes) (tm : E.Time) (log : TransparencyLog E.Time) (id : Bytes)
      → log_of_der E origin der tm ≡ ok (log, id)
      → id ≡ hex_encode log.id
  unfolding log_of_der
  log_of_der-hex_encode origin der tm log id e = ground arith

  instance-hex_encode :
      (origin key : Bytes) (tm : E.Time) (log : TransparencyLog E.Time) (id : Bytes)
      → pubkey_to_transparency_log_instance E origin key tm ≡ ok (log, id)
      → id ≡ hex_encode log.id
  unfolding pubkey_to_transparency_log_instance
  instance-hex_encode origin key tm log id e = elim (Option-cases (E.pem_decode key).0) [
    | inl q ↦ absurd (cc (rw (q, pubkey_to_transparency_log_instance) at e))
    | inr (der, q) ↦
        log_of_der-hex_encode origin der tm log id
          (rw (q, pubkey_to_transparency_log_instance) at e)
  ]

  -- Two logs that are kept under the same name have the same id, so that in the map of the logs none
  -- takes the place of another. The ids are bytes.
  pub pubkey_to_transparency_log_instance_inj :
      (origin key origin' key' : Bytes) (tm tm' : E.Time) (log log' : TransparencyLog E.Time)
      (id : Bytes)
      → pubkey_to_transparency_log_instance E origin key tm ≡ ok (log, id)
      → pubkey_to_transparency_log_instance E origin' key' tm' ≡ ok (log', id)
      → All (λ b. b < 256) log.id
      → All (λ b. b < 256) log'.id
      → log.id ≡ log'.id
  pubkey_to_transparency_log_instance_inj origin key origin' key' tm tm' log log' id e e' h h' =
      hex_encode_inj log.id log'.id h h' (
        sym (instance-hex_encode origin key tm log id e)
        ∙ instance-hex_encode origin' key' tm' log' id e')
