-- ===== src/Ctlog/Config/Roots.antt =====
-- The trusted Fulcio roots as a set: adding and removing.
use scaffolding.Base.{
  ◌≡◌, ◌≢◌, ◌↔◌, ◌⊎◌, inl, inr, refl, sym, ap, ◌∙◌, Bytes, true, false, List, [], ◌∷◌, ◌++◌, ok,
  wrap, >>=-eq-ok, wrap-eq-ok, ok-injective, ◌==◌, if◌then◌else◌, arith, Bool-cases, In, Distinct,
  In-append, ==-eq, ==-ne,
}
use scaffolding.Ctlog.External.{Library}
use scaffolding.Ctlog.Config.{
  Config, extract_fulcio_root, has_root, add_fulcio_root, without_root, remove_fulcio_root,
}

not_head : (x y : Bytes) (ys : List Bytes) → In x (y ∷ ys) → ¬ (x ≡ y) → In x ys
not_head x y ys (inl e) n = absurd (n e)
not_head x y ys (inr i) n = i

module _ (L : Library) where
  has_root-In : (root : Bytes) (certs : List Bytes) → has_root L root certs ≡ true → In root certs
  unfolding has_root
  has_root-In root [] h = cc
  has_root-In root (fc ∷ rest) h = ground (arith, has_root-In root rest)

  In-has_root : (root : Bytes) (certs : List Bytes) → In root certs → has_root L root certs ≡ true
  unfolding has_root
  In-has_root root [] i = absurd i
  In-has_root root (fc ∷ rest) (inl e) = ground arith
  In-has_root root (fc ∷ rest) (inr i) = ground (arith, In-has_root root rest i)

  In-without_root :
      (root x : Bytes) (certs : List Bytes)
      → In x (without_root L root certs) ↔ (In x certs × (x ≢ root))
  unfolding without_root
  In-without_root root x [] = (λ i. absurd i, λ (i, n). i)
  In-without_root root x (fc ∷ rest) = elim (Bool-cases (fc == root)) [
    | inl e ↦ rw e (
      λ i. let (p, n) = (In-without_root root x rest).0 i in (inr p, n),
      λ (i, n).
          (In-without_root root x rest).1 (not_head x fc rest i (λ q. n (q ∙ ==-eq fc root e)), n),
    )
    | inr e ↦ rw e (
      λ i. elim i [
        | inl q ↦ (inl q, λ r. ==-ne fc root e (sym q ∙ r))
        | inr j ↦ let (p, n) = (In-without_root root x rest).0 j in (inr p, n)
      ],
      λ (i, n). elim i [ inl q ↦ inl q | inr j ↦ inr ((In-without_root root x rest).1 (j, n)) ],
    )
  ]

  -- With no root of that name there is nothing to leave out.
  without_root_absent :
      (root : Bytes) (certs : List Bytes)
      → has_root L root certs ≡ false
      → without_root L root certs ≡ certs
  unfolding has_root without_root
  without_root_absent root [] h = refl
  without_root_absent root (fc ∷ rest) h = ground (arith, without_root_absent root rest)

  without_root-append :
      (root : Bytes) (certs : List Bytes)
      → has_root L root certs ≡ false
      → without_root L root (certs ++ (root ∷ [])) ≡ certs
  unfolding has_root without_root
  without_root-append root [] h = ground arith
  without_root-append root (fc ∷ rest) h = ground (arith, without_root-append root rest)

  has_root-append :
      (root : Bytes) (certs : List Bytes) → has_root L root (certs ++ (root ∷ [])) ≡ true
  unfolding has_root
  has_root-append root [] = ground arith
  has_root-append root (fc ∷ rest) = ground (arith, has_root-append root rest)

  Distinct-append :
      (root : Bytes) (certs : List Bytes)
      → Distinct certs
      → ¬ In root certs
      → Distinct (certs ++ (root ∷ []))
  Distinct-append root [] d n = (λ i. i, tt)
  Distinct-append root (fc ∷ rest) d n = (
    λ i. elim (In-append fc rest (root ∷ []) i) [
      | inl j ↦ d.0 j
      | inr j ↦ elim j [ inl e ↦ n (inl (sym e)) | inr x ↦ x ]
    ],
    Distinct-append root rest d.1 (λ i. n (inr i)),
  )

  -- The trusted roots after a successful `AddFulcioRoot`, by the root that was extracted.
  abbrev pub IsAdded : Bytes → Config L → Config L → Type 0
  IsAdded root c c' =
      (In root c.fulcio_certs × (c' ≡ c))
      ⊎ ((¬ In root c.fulcio_certs)
          × (c' ≡ record c { fulcio_certs = c.fulcio_certs ++ (root ∷ []) }))

  add_fulcio_root_of :
      (c : Config L) (fulcio_root root : Bytes)
      → extract_fulcio_root L fulcio_root ≡ ok root
      → add_fulcio_root L c fulcio_root ≡ (
          if has_root L root c.fulcio_certs
          then ok c
          else ok (record c { fulcio_certs = c.fulcio_certs ++ (root ∷ []) }))
  unfolding add_fulcio_root
  add_fulcio_root_of c fulcio_root root e = rw e refl

  remove_fulcio_root_of :
      (c : Config L) (fulcio_root root : Bytes)
      → extract_fulcio_root L fulcio_root ≡ ok root
      → remove_fulcio_root L c fulcio_root
        ≡ ok (record c { fulcio_certs = without_root L root c.fulcio_certs })
  unfolding remove_fulcio_root
  remove_fulcio_root_of c fulcio_root root e = rw e refl

  ok-IsAdded :
      (root : Bytes) (c c' : Config L)
      → (if has_root L root c.fulcio_certs
          then ok c
          else ok (record c { fulcio_certs = c.fulcio_certs ++ (root ∷ []) }))
        ≡ ok c'
      → IsAdded root c c'
  ok-IsAdded root c c' h = elim (Bool-cases (has_root L root c.fulcio_certs)) [
    | inl e ↦ inl (has_root-In root c.fulcio_certs e, ok-injective (sym (rw e at h)))
    | inr e ↦ inr (λ i. cc (e, In-has_root root c.fulcio_certs i), ok-injective (sym (rw e at h)))
  ]

  IsAdded-Distinct :
      (root : Bytes) (c c' : Config L)
      → IsAdded root c c'
      → Distinct c.fulcio_certs
      → Distinct c'.fulcio_certs
  IsAdded-Distinct root c c' (inl (i, e)) d = rw e d
  IsAdded-Distinct root c c' (inr (n, e)) d = rw e (Distinct-append root c.fulcio_certs d n)

  IsAdded-has_root :
      (root : Bytes) (c c' : Config L) → IsAdded root c c' → has_root L root c'.fulcio_certs ≡ true
  IsAdded-has_root root c c' (inl (i, e)) = rw e (In-has_root root c.fulcio_certs i)
  IsAdded-has_root root c c' (inr (n, e)) = rw e (has_root-append root c.fulcio_certs)

  has_root-false :
      (root : Bytes) (certs : List Bytes) → ¬ In root certs → has_root L root certs ≡ false
  has_root-false root certs n = elim (Bool-cases (has_root L root certs)) [
    | inl e ↦ absurd (n (has_root-In root certs e))
    | inr e ↦ e
  ]

  -- A successful `AddFulcioRoot` has extracted a root. It leaves the configuration alone if the root
  -- was there, and else appends it and changes nothing else; roots that were distinct stay so.
  pub add_fulcio_root-IsAdded :
      (c c' : Config L) (fulcio_root : Bytes)
      → add_fulcio_root L c fulcio_root ≡ ok c'
      → (root : Bytes) × (extract_fulcio_root L fulcio_root ≡ ok root)
        × IsAdded root c c'
        × (Distinct c.fulcio_certs → Distinct c'.fulcio_certs)
  unfolding add_fulcio_root
  add_fulcio_root-IsAdded c c' fulcio_root h =
      let (root, e, r) =
        >>=-eq-ok (wrap "extracting fulcioRoot: %w" (extract_fulcio_root L fulcio_root))
          (λ root.
            if has_root L root c.fulcio_certs
            then ok c
            else ok (record c { fulcio_certs = c.fulcio_certs ++ (root ∷ []) }))
          h in
      let a = ok-IsAdded root c c' r in
      (
        root,
        wrap-eq-ok _ (extract_fulcio_root L fulcio_root) e,
        a,
        λ d. IsAdded-Distinct root c c' a d,
      )

  -- Adding the same root again changes nothing.
  pub add_fulcio_root_idem :
      (c c' : Config L) (fulcio_root : Bytes)
      → add_fulcio_root L c fulcio_root ≡ ok c'
      → add_fulcio_root L c' fulcio_root ≡ ok c'
  add_fulcio_root_idem c c' fulcio_root h =
      let (root, e, a, d) = add_fulcio_root-IsAdded c c' fulcio_root h in
      add_fulcio_root_of c' fulcio_root root e ∙ rw (IsAdded-has_root root c c' a) refl

  -- A successful `RemoveFulcioRoot` leaves exactly the other roots, and changes nothing else.
  pub remove_fulcio_root-In :
      (c : Config L) (fulcio_root root : Bytes)
      → extract_fulcio_root L fulcio_root ≡ ok root
      → (c' : Config L) × (remove_fulcio_root L c fulcio_root ≡ ok c')
        × ((x : Bytes) → In x c'.fulcio_certs ↔ (In x c.fulcio_certs × (x ≢ root)))
        × (record c' { fulcio_certs = c.fulcio_certs } ≡ c)
  remove_fulcio_root-In c fulcio_root root e = (
    record c { fulcio_certs = without_root L root c.fulcio_certs },
    remove_fulcio_root_of c fulcio_root root e,
    λ x. In-without_root root x c.fulcio_certs,
    refl,
  )

  -- To remove a root that was not trusted before it was added gives the old configuration back.
  pub remove_fulcio_root-add_fulcio_root :
      (c c' : Config L) (fulcio_root root : Bytes)
      → extract_fulcio_root L fulcio_root ≡ ok root
      → ¬ In root c.fulcio_certs
      → add_fulcio_root L c fulcio_root ≡ ok c'
      → remove_fulcio_root L c' fulcio_root ≡ ok c
  remove_fulcio_root-add_fulcio_root c c' fulcio_root root e n h =
      let absent : has_root L root c.fulcio_certs ≡ false = has_root-false root c.fulcio_certs n in
      let c'-eq : c' ≡ record c { fulcio_certs = c.fulcio_certs ++ (root ∷ []) } =
        ok-injective (sym h ∙ add_fulcio_root_of c fulcio_root root e ∙ rw absent refl) in
      remove_fulcio_root_of c' fulcio_root root e
      ∙ ap (λ (d : Config L). ok (record d { fulcio_certs = without_root L root d.fulcio_certs }))
          c'-eq
      ∙ ap (λ certs. ok (record c { fulcio_certs = certs }))
          (without_root-append root c.fulcio_certs absent)
