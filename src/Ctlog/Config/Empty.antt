-- ===== src/Ctlog/Config/Empty.antt =====
-- When adding and removing a root panic.
use scaffolding.Base.{
  ◌≡◌, ◌↔◌, refl, String, Bytes, Bool-cases, inl, inr, List, [], ◌∷◌, Result, ok, err, panic, exit,
  wrap, ◌>>=◌, last, if◌then◌else◌,
}
use scaffolding.Ctlog.External.{Library}
use scaffolding.Ctlog.Config.{
  Config, last_cert, extract_fulcio_root, has_root, add_fulcio_root, remove_fulcio_root,
}

abbrev pub Panics : {A : Type 0} → Result A → Type 0
Panics r = (t : String) × (r ≡ panic t)

-- A computation that goes on with something that does not panic.
then-Panics :
    {A B : Type 0} (s : String) (r : Result A) (next : A → Result B)
    → ((a : A) → ¬ Panics (next a))
    → Panics (wrap s r >>= next)
    → Panics r
then-Panics s (ok a) next n p = absurd (n a p)
then-Panics s (err e) next n (t, p) = absurd (cc (p))
then-Panics s (panic u) next n p = (u, refl)
then-Panics s (exit k) next n (t, p) = absurd (cc (p))

module _ (L : Library) (marshals : (x : L.certs.Cert) → ¬ Panics (L.certs.marshal x)) where
  last_cert_of :
      (r : Result (List L.certs.Cert))
      → ¬ Panics r
      → Panics (wrap "unable to unmarshal certficate chain: %w" r >>= last_cert L)
      → r ≡ ok []
  unfolding last_cert
  last_cert_of (ok []) n p = refl
  last_cert_of (ok (c ∷ cs)) n p = absurd (marshals (last c cs) p)
  last_cert_of (err e) n (t, p) = absurd (cc (p))
  last_cert_of (panic u) n p = absurd (n (u, refl))
  last_cert_of (exit k) n (t, p) = absurd (cc (p))

  added : (c : Config L) (root : Bytes) → Config L → Result (Config L)
  added c root d = if has_root L root c.fulcio_certs then ok c else ok d

  added-returns : (c d : Config L) (root : Bytes) → ¬ Panics (added c root d)
  unfolding added
  added-returns c d root (t, p) = elim (Bool-cases (has_root L root c.fulcio_certs)) [
    | inl e ↦ absurd (cc (rw e at p))
    | inr e ↦ absurd (cc (rw e at p))
  ]

  -- `AddFulcioRoot` and `RemoveFulcioRoot` panic exactly on a text that parses but holds no
  -- certificate, whatever the configuration is, if parsing the text and marshalling a certificate
  -- return.
  pub fulcio_root-Panics :
      (c : Config L) (fulcio_root : Bytes)
      → ¬ Panics (L.certs.unmarshal fulcio_root)
      → (Panics (add_fulcio_root L c fulcio_root) ↔ (L.certs.unmarshal fulcio_root ≡ ok []))
        × (Panics (remove_fulcio_root L c fulcio_root) ↔ (L.certs.unmarshal fulcio_root ≡ ok []))
  unfolding add_fulcio_root remove_fulcio_root extract_fulcio_root last_cert added
  fulcio_root-Panics c fulcio_root n =
      let extracted = extract_fulcio_root L fulcio_root in
      (
        (
          λ p. last_cert_of (L.certs.unmarshal fulcio_root) n (
              then-Panics "extracting fulcioRoot: %w" extracted _ (λ root. added-returns c _ root)
                p),
          λ e. ("index out of range [-1]", rw e refl),
        ),
        (
          λ p.
              last_cert_of (L.certs.unmarshal fulcio_root) n
                (then-Panics "extracting fulcioRoot: %w" extracted _ (λ root (t, q). cc (q)) p),
          λ e. ("index out of range [-1]", rw e refl),
        ),
      )
