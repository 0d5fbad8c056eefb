-- ===== src/Ctlog/Marshal/Unique.antt =====
-- The certificates that `Unmarshal` collects: each once, and exactly those under the fulcio keys.
use scaffolding.Base.{
  ◌≡◌, ◌↔◌, ◌⊎◌, inl, inr, refl, sym, subst, ==-eq, ==-ne, ◌∙◌, Bytes, Option, none, some, [], ◌∷◌,
  codes, has_prefix, ◌==◌, if◌then◌else◌, arith, In, Distinct, Bool-cases, ltb, length,
}
use scaffolding.Base.Dict.{Dict, lookup, insert, keys, In-keys}
use scaffolding.Ctlog.Config.{legacy_root_ca_key}
use scaffolding.Ctlog.Marshal.{collect_fulcio, legacy_certs, unique_certs}
use scaffolding.Ctlog.Marshal.Keys.{IsFulcioKey}

-- The entries of a Go map: no key twice.
abbrev pub IsMap : Dict Bytes → Type 0
IsMap d = Distinct (keys d)

keys-insert :
    (x k v : Bytes) (d : Dict Bytes) → In x (keys (insert k v d)) ↔ ((x ≡ k) ⊎ In x (keys d))
unfolding keys insert
keys-insert x k v [] = (λ i. i, λ i. i)
keys-insert x k v ((j, w) ∷ d) = elim (Bool-cases (j == k)) [
  | inl e ↦ rw e (
    λ i. elim i [ inl q ↦ inl q | inr r ↦ inr (inr r) ],
    λ i. elim i [ inl q ↦ inl q | inr (inl q) ↦ inl (q ∙ ==-eq j k e) | inr (inr r) ↦ inr r ],
  )
  | inr e ↦ rw e (
    λ i. elim i [
      | inl q ↦ inr (inl q)
      | inr r ↦ elim ((keys-insert x k v d).0 r) [ inl p ↦ inl p | inr t ↦ inr (inr t) ]
    ],
    λ i. elim i [
      | inl p ↦ inr ((keys-insert x k v d).1 (inl p))
      | inr (inl q) ↦ inl q
      | inr (inr t) ↦ inr ((keys-insert x k v d).1 (inr t))
    ],
  )
]

Distinct-keys-insert : (k v : Bytes) (d : Dict Bytes) → IsMap d → IsMap (insert k v d)
unfolding keys insert
Distinct-keys-insert k v [] h = (λ i. i, tt)
Distinct-keys-insert k v ((j, w) ∷ d) h = elim (Bool-cases (j == k)) [
  | inl e ↦ rw e (subst (λ t. ¬ In t (keys d)) (==-eq j k e) h.0, h.1)
  | inr e ↦ rw e (
    λ i. elim ((keys-insert j k v d).0 i) [ inl p ↦ ==-ne j k e p | inr r ↦ h.0 r ],
    Distinct-keys-insert k v d h.1,
  )
]

-- Some entry under a fulcio key has the value.
abbrev Has : Bytes → Dict Bytes → Type 0
Has x [] = ⊥
Has x ((k, v) ∷ d) = (IsFulcioKey k × (x ≡ v)) ⊎ Has x d

collect_fulcio-IsMap : (d unique : Dict Bytes) → IsMap unique → IsMap (collect_fulcio d unique)
unfolding collect_fulcio
collect_fulcio-IsMap [] unique h = h
collect_fulcio-IsMap ((k, v) ∷ d) unique h = elim (Bool-cases (has_prefix k (codes "fulcio-"))) [
  | inl e ↦ rw e (collect_fulcio-IsMap d (insert v v unique) (Distinct-keys-insert v v unique h))
  | inr e ↦ rw e (collect_fulcio-IsMap d unique h)
]

collect_fulcio-Has :
    (x : Bytes) (d unique : Dict Bytes)
    → In x (keys (collect_fulcio d unique)) ↔ (In x (keys unique) ⊎ Has x d)
unfolding collect_fulcio
collect_fulcio-Has x [] unique = (λ i. inl i, λ i. elim i [ inl j ↦ j | inr z ↦ absurd z ])
collect_fulcio-Has x ((k, v) ∷ d) unique = elim (Bool-cases (has_prefix k (codes "fulcio-"))) [
  | inl e ↦ rw e (
    λ i. elim ((collect_fulcio-Has x d (insert v v unique)).0 i) [
      | inl j ↦ elim ((keys-insert x v v unique).0 j) [
        | inl p ↦ inr (inl (refl, p))
        | inr r ↦ inl r
      ]
      | inr m ↦ inr (inr m)
    ],
    λ i. (collect_fulcio-Has x d (insert v v unique)).1 (elim i [
      | inl r ↦ inl ((keys-insert x v v unique).1 (inr r))
      | inr (inl (f, p)) ↦ inl ((keys-insert x v v unique).1 (inl p))
      | inr (inr m) ↦ inr m
    ]),
  )
  | inr e ↦ rw e (
    λ i. elim ((collect_fulcio-Has x d unique).0 i) [ inl j ↦ inl j | inr m ↦ inr (inr m) ],
    λ i.
        (collect_fulcio-Has x d unique).1
          (elim i [ inl r ↦ inl r | inr (inl (f, p)) ↦ absurd (cc f) | inr (inr m) ↦ inr m ]),
  )
]

Has-lookup :
    (x : Bytes) (d : Dict Bytes)
    → IsMap d
    → Has x d ↔ ((k : Bytes) × IsFulcioKey k × (lookup k d ≡ some x))
unfolding keys lookup
Has-lookup x [] m = (λ z. absurd z, λ (k, f, h). absurd (cc h))
Has-lookup x ((k, v) ∷ d) m = (
  λ h. elim h [
    | inl (f, p) ↦ (k, f, ground arith)
    | inr t ↦ let (k', f, e) = (Has-lookup x d m.1).0 t in (k', f, later k' e)
  ],
  λ (k', f, e). elim (Bool-cases (k == k')) [
    | inl q ↦ inl (subst IsFulcioKey (sym (==-eq k k' q)) f, cc (rw q at e))
    | inr q ↦ inr ((Has-lookup x d m.1).1 (k', f, rw q at e))
  ],
)
  where
    later : (k' : Bytes) → lookup k' d ≡ some x → (if k == k' then some v else lookup k' d) ≡ some x
    later k' e = elim (Bool-cases (k == k')) [
      | inl q ↦ absurd (m.0 (subst (λ t. In t (keys d)) (sym (==-eq k k' q)) (In-keys k' x d e)))
      | inr q ↦ rw q e
    ]

legacy_certs-IsMap : (o : Option Bytes) → IsMap (legacy_certs o)
unfolding legacy_certs keys insert
legacy_certs-IsMap none = tt
legacy_certs-IsMap (some l) = elim (Bool-cases (ltb 0 (length l))) [
  | inl e ↦ rw e (λ i. i, tt)
  | inr e ↦ rw e tt
]

-- No certificate is collected twice.
pub unique_certs-Distinct : (entries : Dict Bytes) → Distinct (unique_certs entries)
unfolding unique_certs keys
unique_certs-Distinct entries =
    collect_fulcio-IsMap entries (legacy_certs (lookup legacy_root_ca_key entries))
      (legacy_certs-IsMap (lookup legacy_root_ca_key entries))

-- With no legacy entry, the collected certificates are the values under the fulcio keys.
pub unique_certs-In :
    (x : Bytes) (entries : Dict Bytes)
    → IsMap entries
    → lookup legacy_root_ca_key entries ≡ none
    → In x (unique_certs entries) ↔ ((k : Bytes) × IsFulcioKey k × (lookup k entries ≡ some x))
unfolding unique_certs legacy_certs keys
unique_certs-In x entries m n = rw n (
  λ i. elim ((collect_fulcio-Has x entries []).0 i) [
    | inl j ↦ absurd j
    | inr h ↦ (Has-lookup x entries m).0 h
  ],
  λ h. (collect_fulcio-Has x entries []).1 (inr ((Has-lookup x entries m).1 h)),
)
