-- ===== src/Tests/Samples.antt =====
-- A concrete cryptography: a certificate is a number, 0 is no CA, and a PEM block is the number
-- between two dashes.
use scaffolding.Base.{
  ℕ, ◌+◌, ◌≤◌, ◌<◌, ◌≡◌, refl, Bytes, true, false, Option, none, some, [], ◌∷◌, Result, ok, err,
  panic, errorf, String, eqb, length, if◌then◌else◌, arith,
}
use scaffolding.Repo.External.{External, ed25519}
use scaffolding.Repo.Chain.Parse.{IsSound, IsPem}

-- A line feed after a block belongs to the block.
abbrev after_block : Bytes → Bytes
after_block [] = []
after_block (x ∷ rest) = if eqb x 0x0a then rest else x ∷ rest

abbrev decode_block : Bytes → Option Bytes × Bytes
decode_block (a ∷ c ∷ b ∷ rest) = (some (c ∷ []), after_block rest)
decode_block s = (none, s)

abbrev parse_number : Bytes → Result ℕ
parse_number (c ∷ []) = ok c
parse_number s = err (errorf "no certificate")

abbrev pub crypto : External
crypto = record {
  Cert = ℕ;
  Time = ℕ;
  pem_decode = decode_block;
  parse_certificate = parse_number;
  is_ca = λ c. if eqb c 0 then false else true;
  not_before = λ c. c;
  not_after = λ c. c + 10;
  parse_pkcs1_public_key = λ s. err (errorf "no PKCS #1 key");
  parse_pkix_public_key = λ s. ok (ed25519 s);
  key_hash = λ origin k. ok origin;
}

after_block-length : (s : Bytes) → length (after_block s) ≤ length s
after_block-length [] = omega arith
after_block-length (x ∷ rest) = ground arith

shorter : (s der rest : Bytes) → decode_block s ≡ (some der, rest) → length rest < length s
shorter [] der rest h = ground arith
shorter (a ∷ []) der rest h = ground arith
shorter (a ∷ c ∷ []) der rest h = ground arith
shorter (a ∷ c ∷ b ∷ s) der rest h = ground (arith, after_block-length s)

parse_number-ne-panic : (s : Bytes) (t : String) → ¬ (parse_number s ≡ panic t)
parse_number-ne-panic [] t h = cc
parse_number-ne-panic (c ∷ []) t h = cc
parse_number-ne-panic (c ∷ d ∷ s) t h = cc

pub crypto-IsSound : IsSound crypto
crypto-IsSound = record { shrinks = shorter; returns = parse_number-ne-panic }

abbrev pub block : ℕ → Bytes
block c = b'-' ∷ c ∷ b'-' ∷ []

pub block-IsPem : IsPem crypto block
block-IsPem = record {
  body = λ c. c ∷ [];
  der = λ c. c ∷ [];
  dashes = λ c. refl;
  parses = λ c. refl;
  decode_last = λ c. refl;
  decode_next = λ c rest. refl;
}
