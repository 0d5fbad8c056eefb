-- ===== src/Repo/Usage/Split.antt =====
-- The files of a chain that was split for the time stamping authority are used for it.
use scaffolding.Base.{
  ℕ, zero, suc, ◌+◌, ◌/◌, ◌%◌, ◌≤◌, ◌<◌, ◌≡◌, ◌≢◌, refl, ap, ◌∙◌, subst, Bytes, true, false,
  Bool-cases, inl, inr, List, [], ◌∷◌, ◌++◌, codes, ok, wrap, >>=-eq-ok, ok-injective, arith, In,
  All, contains, has_prefix, to_lower, lower, decimal, decimal_digits, ltb, ◌==◌, ◌⊎◌, init, last,
}
use scaffolding.Base.Dict.{Dict, insert}
use scaffolding.Base.Substring.{contains-skip}
use scaffolding.Certs.{
  CertCodec, leaf_name, root_name, intermediate_name, add_intermediates, split_certs,
  split_cert_chain,
}
use scaffolding.Repo.{fulcio_target, rekor_target, ctfe_target, tsa_target}
use scaffolding.Repo.Usage.{first_usage, get_target_usage}
use scaffolding.Repo.TrustedRoot.SplitNames.{tsa, usage-leaf_name, usage-root_name}

-- A byte before the letters, as digits are.
abbrev IsLow : ℕ → Type 0
IsLow c = c < 58

decimal_digits-IsLow : (f n : ℕ) (acc : Bytes) → All IsLow acc → All IsLow (decimal_digits f n acc)
unfolding decimal_digits
decimal_digits-IsLow zero n acc h = h
decimal_digits-IsLow (suc f) n acc h =
    let digit : b'0' + n % 10 < 58 = omega arith in
    elim (Bool-cases (ltb n 10)) [
      | inl e ↦ rw e (digit, h)
      | inr e ↦ rw e (decimal_digits-IsLow f (n / 10) ((b'0' + n % 10) ∷ acc) (digit, h))
    ]

decimal-IsLow : (n : ℕ) → All IsLow (decimal n)
unfolding decimal
decimal-IsLow n = decimal_digits-IsLow (suc n) n [] tt

-- Digits do not matter for a text that begins with a letter.
contains_low :
    (ds s : Bytes) (d : ℕ) (p : Bytes)
    → All IsLow ds
    → 58 ≤ d
    → contains (to_lower (ds ++ s)) (d ∷ p) ≡ contains (to_lower s) (d ∷ p)
unfolding lower
contains_low [] s d p h le = refl
contains_low (c ∷ ds) s d p (l, h) le =
    let differ : lower c ≢ d = λ e. ground arith in
    contains-skip (lower c) d (to_lower (ds ++ s)) p differ ∙ contains_low ds s d p h le

no_fulcio : (i : ℕ) → contains (to_lower (intermediate_name tsa i)) (to_lower fulcio_target) ≡ false
unfolding contains has_prefix lower intermediate_name
no_fulcio i =
    contains_low (decimal i) (codes ".crt.pem") b'f' (codes "ulcio") (decimal-IsLow i) (omega arith)

no_rekor : (i : ℕ) → contains (to_lower (intermediate_name tsa i)) (to_lower rekor_target) ≡ false
unfolding contains has_prefix lower intermediate_name
no_rekor i =
    contains_low (decimal i) (codes ".crt.pem") b'r' (codes "ekor") (decimal-IsLow i) (omega arith)

no_ctfe : (i : ℕ) → contains (to_lower (intermediate_name tsa i)) (to_lower ctfe_target) ≡ false
unfolding contains has_prefix lower intermediate_name
no_ctfe i =
    contains_low (decimal i) (codes ".crt.pem") b'c' (codes "tfe") (decimal-IsLow i) (omega arith)

has_tsa : (i : ℕ) → contains (to_lower (intermediate_name tsa i)) (to_lower tsa_target) ≡ true
unfolding contains has_prefix lower intermediate_name
has_tsa i = refl

pub usage-intermediate_name : (i : ℕ) → get_target_usage (intermediate_name tsa i) ≡ tsa_target
unfolding get_target_usage first_usage
usage-intermediate_name i = rw (no_fulcio i, no_rekor i, no_ctfe i, has_tsa i) refl

In-insert :
    (k v j w : Bytes) (files : Dict Bytes)
    → In (j, w) (insert k v files)
    → (j ≡ k) ⊎ In (j, w) files
unfolding insert
In-insert k v j w [] (inl e) = inl (ap (λ x. x.0) e)
In-insert k v j w [] (inr i) = absurd i
In-insert k v j w ((n, x) ∷ files) i = elim (Bool-cases (n == k)) [
  | inl e ↦ elim (rw e at i) [ inl q ↦ inl (ap (λ x. x.0) q) | inr q ↦ inr (inr q) ]
  | inr e ↦ elim (rw e at i) [
    | inl q ↦ inr (inl q)
    | inr q ↦ elim (In-insert k v j w files q) [ inl a ↦ inl a | inr b ↦ inr (inr b) ]
  ]
]

-- The names that are used for the authority.
abbrev AreTsa : Dict Bytes → Type 0
AreTsa files = (k v : Bytes) → In (k, v) files → get_target_usage k ≡ tsa_target

insert-AreTsa :
    (k v : Bytes) (files : Dict Bytes)
    → AreTsa files
    → get_target_usage k ≡ tsa_target
    → AreTsa (insert k v files)
insert-AreTsa k v files h u j w i = elim (In-insert k v j w files i) [
  | inl e ↦ ap get_target_usage e ∙ u
  | inr q ↦ h j w q
]

module _ (C : CertCodec) where
  add_intermediates-AreTsa :
      (i : ℕ) (cs : List C.Cert) (ret files : Dict Bytes)
      → AreTsa ret
      → add_intermediates C tsa i cs ret ≡ ok files
      → AreTsa files
  unfolding add_intermediates
  add_intermediates-AreTsa i [] ret files h e = subst AreTsa (ok-injective e) h
  add_intermediates-AreTsa i (c ∷ cs) ret files h e =
      let (pem, e1, e2) =
        >>=-eq-ok (wrap "marshaling intermediate cert %d: %w" (C.marshal c)) _ e in
      add_intermediates-AreTsa (suc i) cs (insert (intermediate_name tsa i) pem ret) files
        (insert-AreTsa (intermediate_name tsa i) pem ret h (usage-intermediate_name i)) e2

  split_certs-AreTsa :
      (certs : List C.Cert) (files : Dict Bytes) → split_certs C tsa certs ≡ ok files → AreTsa files
  unfolding split_certs
  split_certs-AreTsa [] files e = absurd (cc (e))
  split_certs-AreTsa (c ∷ []) files e = absurd (cc (e))
  split_certs-AreTsa (c ∷ d ∷ certs) files e =
      let (leaf, e1, h1) = >>=-eq-ok (wrap "marshaling leaf cert: %w" (C.marshal c)) _ e in
      let (root, e2, h2) =
        >>=-eq-ok (wrap "marshaling root cert: %w" (C.marshal (last d certs))) _ h1 in
      let one = insert (leaf_name tsa) leaf [] in
      add_intermediates-AreTsa 0 (init (d ∷ certs)) (insert (root_name tsa) root one) files
        (insert-AreTsa (root_name tsa) root one
          (insert-AreTsa (leaf_name tsa) leaf [] (λ k v i. absurd i) usage-leaf_name)
          usage-root_name)
        h2

  -- Every file of a split chain is used for the authority.
  pub split_cert_chain-usage :
      (chain : Bytes) (files : Dict Bytes) (k v : Bytes)
      → split_cert_chain C chain tsa ≡ ok files
      → In (k, v) files
      → get_target_usage k ≡ tsa_target
  unfolding split_cert_chain
  split_cert_chain-usage chain files k v e i =
      let (certs, e1, e2) =
        >>=-eq-ok (wrap "unmarshaling certificates: %w" (C.unmarshal chain)) _ e in
      split_certs-AreTsa certs files e2 k v i
