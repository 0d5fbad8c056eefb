-- ===== src/Server/Init/KeyFiles.antt =====
-- The entries of the secret with the keys.
use scaffolding.Base.{
  ◌≡◌, ◌≢◌, ◌↔◌, ◌⊎◌, inl, inr, refl, sym, ap, ◌∙◌, subst, Bytes, Bool, true, false, Bool-cases,
  some, List, [], ◌∷◌, ◌++◌, codes, map, Result, ok, wrap, wrap-eq-ok, >>=-eq-ok, ok-injective,
  has_suffix, In, ==-eq, ==-ne, ◌==◌,
}
use scaffolding.Base.Dict.{Dict, lookup, lookup-insert, lookup-nil}
use scaffolding.Repo.Paths.{join}
use scaffolding.Server.{DirEntry}
use scaffolding.Server.Init.{ServerWorld, add_key, read_keys, list_keys}

module _ (W : ServerWorld) (d : Bytes) (σ : W.maker.disk.State) where
  abbrev json : Bytes
  json = codes ".json"

  -- What is read of the file of a key.
  abbrev key_file : Bytes → Result Bytes
  key_file name = W.read_file (join d (codes "keys/" ++ name)) σ

  -- The entry is a file of the keys with its contents.
  abbrev pub IsKeyFile : List Bytes → Bytes → Bytes → Type 0
  IsKeyFile names k v =
      In k names
      × (has_suffix k (codes ".json") ≡ true)
      × (W.read_file (join d (codes "keys/" ++ k)) σ ≡ ok v)

  -- What one file makes of an entry, by whether its name is the key.
  add_key-lookup :
      (b : Bool) (name k : Bytes) (acc out : Dict Bytes)
      → add_key W b d name acc σ ≡ ok out
      → ((b ≡ true) × (name ≡ k) × ((v : Bytes) × (key_file k ≡ ok v) × (lookup k out ≡ some v)))
        ⊎ ((b ≡ false) ⊎ (name ≢ k)) × (lookup k out ≡ lookup k acc)
  unfolding add_key
  add_key-lookup false name k acc out h = inr (inl refl, ap (lookup k) (sym (ok-injective h)))
  add_key-lookup true name k acc out h =
      let (content, e1, e2) = >>=-eq-ok (wrap "failed reading file %s: %w" (key_file name)) _ h in
      let put = ap (lookup k) (sym (ok-injective e2)) ∙ lookup-insert name k content acc in
      elim (Bool-cases (name == k)) [
        | inl e ↦
            (let same = ==-eq name k e in
              inl (
                refl,
                same,
                (
                  content,
                  subst (λ n. key_file n ≡ ok content) same (wrap-eq-ok _ (key_file name) e1),
                  put ∙ rw e refl,
                ),
              ))
        | inr e ↦ inr (inr (==-ne name k e), put ∙ rw e refl)
      ]

  abbrev names : List DirEntry → List Bytes
  names = map (λ e. e.name)

  add_key-IsKeyFile :
      (all : List Bytes) (name k v : Bytes) (acc out : Dict Bytes)
      → In name all
      → (lookup k acc ≡ some v → IsKeyFile all k v)
      → add_key W (has_suffix name json) d name acc σ ≡ ok out
      → lookup k out ≡ some v
      → IsKeyFile all k v
  add_key-IsKeyFile all name k v acc out i old h q =
      elim (add_key-lookup (has_suffix name json) name k acc out h) [
        | inl (b, same, (c, r, l)) ↦ (
          subst (λ n. In n all) same i,
          subst (λ n. has_suffix n json ≡ true) same b,
          cc (r, l, q),
        )
        | inr (why, l) ↦ old (sym l ∙ q)
      ]

  read_keys-IsKeyFile :
      (es : List DirEntry) (all : List Bytes) (acc out : Dict Bytes)
      → ((n : Bytes) → In n (names es) → In n all)
      → ((k v : Bytes) → lookup k acc ≡ some v → IsKeyFile all k v)
      → read_keys W d es acc σ ≡ ok out
      → (k v : Bytes) → lookup k out ≡ some v
      → IsKeyFile all k v
  unfolding read_keys
  read_keys-IsKeyFile [] all acc out f old h k v q = old k v (ap (lookup k) (ok-injective h) ∙ q)
  read_keys-IsKeyFile (e ∷ es) all acc out f old h k v q =
      let (next, e1, e2) = >>=-eq-ok (add_key W (has_suffix e.name json) d e.name acc σ) _ h in
      read_keys-IsKeyFile es all next out (λ n i. f n (inr i))
        (λ j w l. add_key-IsKeyFile all e.name j w acc next (f e.name (inl refl)) (old j w) e1 l) e2
        k v q

  still_there :
      (name : Bytes) (rest : List Bytes) (acc out : Dict Bytes) (k v : Bytes)
      → has_suffix k json ≡ true
      → (has_suffix name json ≡ false) ⊎ (name ≢ k)
      → lookup k out ≡ lookup k acc
      → In k (name ∷ rest) ⊎ (lookup k acc ≡ some v)
      → In k rest ⊎ (lookup k out ≡ some v)
  still_there name rest acc out k v s (inl b) l (inl (inl e)) =
      absurd (cc (s, b, ap (λ n. has_suffix n json) e))
  still_there name rest acc out k v s (inr n) l (inl (inl e)) = absurd (n (sym e))
  still_there name rest acc out k v s why l (inl (inr i)) = inl i
  still_there name rest acc out k v s why l (inr q) = inr (l ∙ q)

  add_key-keeps :
      (name : Bytes) (rest : List Bytes) (acc out : Dict Bytes) (k v : Bytes)
      → has_suffix k json ≡ true
      → key_file k ≡ ok v
      → add_key W (has_suffix name json) d name acc σ ≡ ok out
      → In k (name ∷ rest) ⊎ (lookup k acc ≡ some v)
      → In k rest ⊎ (lookup k out ≡ some v)
  add_key-keeps name rest acc out k v s r h i =
      elim (add_key-lookup (has_suffix name json) name k acc out h) [
        | inl (b, same, (c, q, l)) ↦ inr (l ∙ ap (λ x. some x) (ok-injective (sym q ∙ r)))
        | inr (why, l) ↦ still_there name rest acc out k v s why l i
      ]

  read_keys-lookup :
      (es : List DirEntry) (acc out : Dict Bytes) (k v : Bytes)
      → has_suffix k json ≡ true
      → key_file k ≡ ok v
      → read_keys W d es acc σ ≡ ok out
      → In k (names es) ⊎ (lookup k acc ≡ some v)
      → lookup k out ≡ some v
  unfolding read_keys
  read_keys-lookup [] acc out k v s r h (inl i) = absurd i
  read_keys-lookup [] acc out k v s r h (inr q) = ap (lookup k) (sym (ok-injective h)) ∙ q
  read_keys-lookup (e ∷ es) acc out k v s r h i =
      let (next, e1, e2) = >>=-eq-ok (add_key W (has_suffix e.name json) d e.name acc σ) _ h in
      read_keys-lookup es next out k v s r e2
        (add_key-keeps e.name (names es) acc next k v s r e1 i)

module _ (W : ServerWorld) where
  -- When the directory of the keys was read, the entries for the secret are exactly the files of it
  -- with the suffix of JSON files, each under its name and with its contents.
  pub list_keys_iff :
      (d : Bytes) (σ : W.maker.disk.State) (data_keys : Dict Bytes) (k v : Bytes)
      → list_keys W d σ ≡ ok data_keys
      → (entries : List DirEntry) × (W.read_dir (join d (codes "keys")) σ ≡ ok entries)
        × ((lookup k data_keys ≡ some v) ↔ IsKeyFile W d σ (map (λ e. e.name) entries) k v)
  unfolding list_keys
  list_keys_iff d σ data_keys k v h =
      let listed = W.read_dir (join d (codes "keys")) σ in
      let (entries, e1, e2) = >>=-eq-ok (wrap "failed to list keys directory %w" listed) _ h in
      (
        entries,
        wrap-eq-ok _ listed e1,
        (
          read_keys-IsKeyFile W d σ entries (map (λ e. e.name) entries) [] data_keys (λ n i. i)
              (λ j w l. absurd (cc (l, lookup-nil j))) e2 k v,
          λ (i, s, r). read_keys-lookup W d σ entries [] data_keys k v s r e2 (inl i),
        ),
      )
