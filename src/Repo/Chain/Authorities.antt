-- ===== src/Repo/Chain/Authorities.antt =====
-- How the loops over a chain spread it over the authority's fields.
use mathlib.Core.List.{append_assoc, append-nil}
use scaffolding.Base.{
  ℕ, ◌+◌, ◌<◌, ◌≡◌, refl, ap, ◌++◌, List, [], ◌∷◌, Option, none, some, ok, length, init, last,
  init-last, if◌then◌else◌, arith,
}
use scaffolding.Repo.External.{External}
use scaffolding.Repo.Chain.{
  Parts, no_parts, TimestampingAuthority, fill_tsa, fill_ca, timestamping_authority,
  certificate_authority,
}

module _ (E : External) where
  open E use {Cert, Time, is_ca, not_before, not_after}

  -- All but the last certificate are intermediates, and the last is the root.
  abbrev ended : Parts Cert → Cert → List Cert → Parts Cert
  ended ca c cs = record ca {
    intermediates = ca.intermediates ++ init (c ∷ cs);
    root = some (last c cs);
  }

  ended_later :
      (ca : Parts Cert) (c d : Cert) (cs : List Cert)
      → ended (record ca { intermediates = ca.intermediates ++ (c ∷ []) }) d cs
        ≡ ended ca c (d ∷ cs)
  ended_later ca c d cs =
      ap (λ t. record ca { intermediates = t; root = some (last d cs) })
        (append_assoc ca.intermediates (c ∷ []) (init (d ∷ cs)))

  fill_tsa-ended :
      (n i : ℕ) (c : Cert) (cs : List Cert) (ca : Parts Cert)
      → 0 < i
      → i + length (c ∷ cs) ≡ n
      → fill_tsa E n i (c ∷ cs) ca ≡ ended ca c cs
  unfolding fill_tsa
  fill_tsa-ended n i c [] ca pos e = rw append-nil (ground arith)
  fill_tsa-ended n i c (d ∷ cs) ca pos e = ground (
    arith,
    fill_tsa-ended n (i + 1) d cs (record ca { intermediates = ca.intermediates ++ (c ∷ []) }),
    ended_later ca c d cs,
  )

  fill_ca-ended :
      (n i : ℕ) (c : Cert) (cs : List Cert) (ca : Parts Cert)
      → i + length (c ∷ cs) ≡ n
      → fill_ca E n i (c ∷ cs) ca ≡ ended ca c cs
  unfolding fill_ca
  fill_ca-ended n i c [] ca e = rw append-nil (ground arith)
  fill_ca-ended n i c (d ∷ cs) ca e = ground (
    arith,
    fill_ca-ended n (i + 1) d cs (record ca { intermediates = ca.intermediates ++ (c ∷ []) }),
    ended_later ca c d cs,
  )

  -- What the authority of a chain should be: a first certificate that is no CA is the leaf, the last
  -- of the others is the root, and what is between them are the intermediates, in their order.
  abbrev pub rest_parts : List Cert → Parts Cert
  rest_parts [] = no_parts
  rest_parts (c ∷ cs) = record {
    leaf = none;
    intermediates = init (c ∷ cs);
    root = some (last c cs);
  }

  abbrev pub tsa_parts : Cert → List Cert → Parts Cert
  tsa_parts c cs = if is_ca c then rest_parts (c ∷ cs) else record (rest_parts cs) { leaf = some c }

  fill_tsa-tsa_parts :
      (c : Cert) (cs : List Cert)
      → fill_tsa E (length (c ∷ cs)) 0 (c ∷ cs) no_parts ≡ tsa_parts c cs
  unfolding fill_tsa
  fill_tsa-tsa_parts c [] = ground arith
  fill_tsa-tsa_parts c (d ∷ cs) = ground (
    arith,
    fill_tsa-ended (length (c ∷ d ∷ cs)) (0 + 1) d cs (record no_parts { intermediates = c ∷ [] }),
    fill_tsa-ended (length (c ∷ d ∷ cs)) (0 + 1) d cs (record no_parts { leaf = some c }),
  )

  -- The loop gives the authority in closed form, for every chain that is not empty.
  pub timestamping_authority-tsa_parts :
      (c : Cert) (cs : List Cert)
      → timestamping_authority E (c ∷ cs)
        ≡ ok (record {
          leaf = (tsa_parts c cs).leaf;
          intermediates = (tsa_parts c cs).intermediates;
          root = (tsa_parts c cs).root;
          validity_period_start = not_before c;
          validity_period_end = not_after c;
        })
  unfolding timestamping_authority
  timestamping_authority-tsa_parts c cs = rw (fill_tsa-tsa_parts c cs) refl

  abbrev pub optional : Option Cert → List Cert
  optional none = []
  optional (some c) = c ∷ []

  parts_in_order :
      (c : Cert) (cs : List Cert)
      → optional (tsa_parts c cs).leaf
          ++ ((tsa_parts c cs).intermediates ++ optional (tsa_parts c cs).root)
        ≡ c ∷ cs
  parts_in_order c [] = ground arith
  parts_in_order c (d ∷ cs) = ground (arith, init-last c (d ∷ cs), init-last d cs)

  -- The leaf, the intermediates and the root, one after the other, are the chain: no certificate is
  -- lost, doubled or moved.
  pub timestamping_authority_order :
      (c : Cert) (cs : List Cert) (a : TimestampingAuthority Cert Time)
      → timestamping_authority E (c ∷ cs) ≡ ok a
      → optional a.leaf ++ (a.intermediates ++ optional a.root) ≡ c ∷ cs
  timestamping_authority_order c cs a h =
      ground (arith, timestamping_authority-tsa_parts c cs, parts_in_order c cs)

  -- The last certificate is the root and all the others are intermediates, in their order; the first
  -- certificate's times are the validity.
  pub certificate_authority_lem :
      (c : Cert) (cs : List Cert)
      → certificate_authority E (c ∷ cs)
        ≡ ok (record {
          intermediates = init (c ∷ cs);
          root = some (last c cs);
          validity_period_start = not_before c;
          validity_period_end = not_after c;
        })
  unfolding certificate_authority
  certificate_authority_lem c cs =
      rw (fill_ca-ended (length (c ∷ cs)) 0 c cs no_parts (omega arith)) refl
