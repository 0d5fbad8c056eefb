-- ===== src/Repo/Create/Plan.antt =====
-- The calls that `CreateRepoWithMetadata` makes, as one list, and how far it gets.
use scaffolding.Base.{
  Option-cases, inl, inr, ◌≡◌, refl, sym, ap, subst, Bytes, true, none, some, Error, String, List,
  [], ◌∷◌, ◌++◌, codes, Result, ok, err, wrap, wrapf,
}
use scaffolding.Cluster.{Exec, continue, ◌>>◌}
use scaffolding.Files.{mkdir, mkdir_all, write_file, outcome}
use scaffolding.Repo.{TargetWithMetadata}
use scaffolding.Repo.Paths.{join, dir}
use scaffolding.Repo.Create.{
  Call, file, tuf, new_repo_indent, init, gen_key_with_expires, add_target_with_expires,
  snapshot_with_expires, timestamp_with_expires, commit, Disk, staged_path, roles, call, check,
  write_staged_target, gen_keys, add_targets, create_repo_with_metadata,
}

-- A call with the text that its error is wrapped in.
abbrev pub Step : Type 0 → Type 0
Step Time = String × Call Time

module _ {Time : Type 0} where
  unfoldable pub key_plan : Time → List Bytes → List (Step Time)
  key_plan expires [] = []
  key_plan expires (role ∷ rest) =
      ("failed to GenKeyWithExpires: %w", tuf (gen_key_with_expires role expires))
      ∷ key_plan expires rest

  -- Each target is written where go-tuf looks for it, and then added.
  unfoldable pub target_plan : Bytes → Time → List TargetWithMetadata → List (Step Time)
  target_plan d expires [] = []
  target_plan d expires (t ∷ rest) =
      ("failed to write staged target %s: %w", file (mkdir_all (dir (staged_path d t.name))))
      ∷ ("failed to write staged target %s: %w", file (write_file (staged_path d t.name) t.bytes))
      ∷ (
        "failed to add AddTargetWithExpires: %w",
        tuf (add_target_with_expires t.name t.custom_metadata expires),
      )
      ∷ target_plan d expires rest

  abbrev pub last_plan : Time → List (Step Time)
  last_plan expires =
      ("failed to add SnapShotWithExpires: %w", tuf (snapshot_with_expires expires))
      ∷ ("failed to add TimestampWithExpires: %w", tuf (timestamp_with_expires expires))
      ∷ ("failed to Commit: %w", tuf commit)
      ∷ []

module _ {Time : Type 0} (D : Disk Time) where
  -- The whole list, which ends with the commit.
  unfoldable pub plan : Time → List TargetWithMetadata → List (Step Time)
  plan now targets =
      let tuf_dir = join D.temp_dir (codes "tuf") in
      let expires = D.add_date now 0 6 0 in
      ("failed to create tmp TUF dir: %w", file (mkdir tuf_dir))
      ∷ ("failed to NewRepoIndent: %w", tuf (new_repo_indent (tuf_dir ++ codes "/")))
      ∷ ("failed to Init repo: %w", tuf (init true))
      ∷ (key_plan expires roles
          ++ (target_plan (tuf_dir ++ codes "/") expires targets ++ last_plan expires))

  -- The calls of the list succeed, one after the other.
  pub data Succeeds : List (Step Time) → D.State → D.State → Type 0 where
    none_left : {σ : D.State} → Succeeds [] σ σ
    next :
        {text : String} {c : Call Time} {rest : List (Step Time)} {σ σ' : D.State}
        → (D.run c σ).0 ≡ none
        → Succeeds rest (D.run c σ).1 σ'
        → Succeeds ((text, c) ∷ rest) σ σ'

  -- How the calls of a list end: all succeed, or those before some call do and this one fails, and
  -- none is made after it.
  pub data Ends {A : Type 0} (a : A) (steps : List (Step Time)) (σ : D.State)
      : Result A × D.State → Type 0 where
    all_done : {σ' : D.State} → Succeeds steps σ σ' → Ends a steps σ (ok a, σ')
    stopped :
        (before : List (Step Time)) (text : String) (c : Call Time) (after : List (Step Time))
        → (σ' : D.State) (e : Error) → steps ≡ before ++ ((text, c) ∷ after)
        → Succeeds before σ σ'
        → (D.run c σ').0 ≡ some e
        → Ends a steps σ (err (wrapf text e), (D.run c σ').1)

  pub Ends-ok :
      {A : Type 0} (a b : A) (steps : List (Step Time)) (σ : D.State) (r : Result A × D.State)
      → Ends a steps σ r
      → r.0 ≡ ok b
      → Succeeds steps σ r.1
  Ends-ok a b steps σ _ (all_done s) h = s
  Ends-ok a b steps σ _ (stopped before text c after σ' e q s f) h = absurd (cc)

  -- The calls of a list as code, with the value at the end.
  abbrev run_plan : {A : Type 0} → A → List (Step Time) → Exec D.State A
  run_plan a [] σ = (ok a, σ)
  run_plan a ((text, c) ∷ rest) σ =
      continue (wrap text (outcome (D.run c σ).0)) (λ _. run_plan a rest) (D.run c σ).1

  longer-Ends :
      {A : Type 0} (a : A) (text : String) (c : Call Time) (rest : List (Step Time)) (σ : D.State)
      (r : Result A × D.State)
      → (D.run c σ).0 ≡ none
      → Ends a rest (D.run c σ).1 r
      → Ends a ((text, c) ∷ rest) σ r
  longer-Ends a text c rest σ _ e (all_done s) = all_done (next e s)
  longer-Ends a text c rest σ _ e (stopped before text' c' after σ' x q s f) =
      stopped ((text, c) ∷ before) text' c' after σ' x (ap (λ l. (text, c) ∷ l) q) (next e s) f

  run_plan-Ends :
      {A : Type 0} (a : A) (steps : List (Step Time)) (σ : D.State)
      → Ends a steps σ (run_plan a steps σ)
  run_plan-Ends a [] σ = all_done none_left
  run_plan-Ends a ((text, c) ∷ rest) σ = elim (Option-cases (D.run c σ).0) [
    | inl e ↦ rw e (longer-Ends a text c rest σ _ e (run_plan-Ends a rest (D.run c σ).1))
    | inr (x, e) ↦ rw e (stopped [] text c rest σ x refl none_left e)
  ]

  -- The loops make the calls of their plans.
  gen_keys-key_plan :
      {A : Type 0} (a : A) (expires : Time) (rs : List Bytes) (ys : List (Step Time))
      (n : Exec D.State A) (σ : D.State)
      → ((σ : D.State) → n σ ≡ run_plan a ys σ)
      → (gen_keys D expires rs >> n) σ ≡ run_plan a (key_plan expires rs ++ ys) σ
  unfolding gen_keys key_plan check call
  gen_keys-key_plan a expires [] ys n σ h = h σ
  gen_keys-key_plan a expires (r ∷ rs) ys n σ h =
      elim (Option-cases (D.run (tuf (gen_key_with_expires r expires)) σ).0) [
        | inl e ↦ rw e (
            gen_keys-key_plan a expires rs ys n (D.run (tuf (gen_key_with_expires r expires)) σ).1
              h)
        | inr (x, e) ↦ rw e refl
      ]

  add_targets-target_plan :
      {A : Type 0} (a : A) (d : Bytes) (expires : Time) (ts : List TargetWithMetadata)
      → (ys : List (Step Time)) (n : Exec D.State A) (σ : D.State)
      → ((σ : D.State) → n σ ≡ run_plan a ys σ)
      → (add_targets D d expires ts >> n) σ ≡ run_plan a (target_plan d expires ts ++ ys) σ
  unfolding add_targets target_plan check call write_staged_target
  add_targets-target_plan a d expires [] ys n σ h = h σ
  add_targets-target_plan a d expires (t ∷ ts) ys n σ h = elim (Option-cases (D.run make σ).0) [
    | inr (x, e) ↦ rw e refl
    | inl e ↦ rw e (elim (Option-cases (D.run put (D.run make σ).1).0) [
      | inr (x, e') ↦ rw e' refl
      | inl e' ↦ rw e' (elim (Option-cases (D.run add (D.run put (D.run make σ).1).1).0) [
        | inr (x, f) ↦ rw f refl
        | inl f ↦ rw f (
            add_targets-target_plan a d expires ts ys n (D.run add (D.run put (D.run make σ).1).1).1
              h)
      ])
    ])
  ]
    where
      make : Call Time
      make = file (mkdir_all (dir (staged_path d t.name)))

      put : Call Time
      put = file (write_file (staged_path d t.name) t.bytes)

      add : Call Time
      add = tuf (add_target_with_expires t.name t.custom_metadata expires)

  -- One more call in front.
  check-run_plan :
      {A : Type 0} (a : A) (text : String) (c : Call Time) (rest : List (Step Time))
      (n : Exec D.State A) (σ : D.State)
      → ((σ : D.State) → n σ ≡ run_plan a rest σ)
      → (check D text c >> n) σ ≡ run_plan a ((text, c) ∷ rest) σ
  unfolding check call
  check-run_plan a text c rest n σ h = elim (Option-cases (D.run c σ).0) [
    | inl e ↦ rw e (h (D.run c σ).1)
    | inr (x, e) ↦ rw e refl
  ]

  create-run_plan :
      (now : Time) (ts : List TargetWithMetadata) (σ : D.State)
      → create_repo_with_metadata D now ts σ
        ≡ run_plan (join D.temp_dir (codes "tuf") ++ codes "/") (plan now ts) σ
  unfolding create_repo_with_metadata plan check call
  create-run_plan now ts σ =
      let d = join D.temp_dir (codes "tuf") ++ codes "/" in
      let expires = D.add_date now 0 6 0 in
      let rest = key_plan expires roles ++ (target_plan d expires ts ++ last_plan expires) in
      let start = ("failed to Init repo: %w", tuf (init true)) ∷ rest in
      check-run_plan d _ _ (("failed to NewRepoIndent: %w", tuf (new_repo_indent d)) ∷ start) _ σ
        λ σa. check-run_plan d _ _ start _ σa λ σb. check-run_plan d _ _ rest _ σb λ σc.
          gen_keys-key_plan d expires roles (target_plan d expires ts ++ last_plan expires) _ σc
            λ σd. add_targets-target_plan d d expires ts (last_plan expires) _ σd λ σe. refl

  -- `CreateRepoWithMetadata` makes the calls of its plan in order: the directory, the repository in
  -- it, a key for each role, each target written to the stage and then added, the snapshot, the
  -- timestamp and the commit. It succeeds if all of them do, with the directory as its value; else it
  -- stops at the first that fails, and returns its error in the text of that call. So nothing is
  -- committed unless everything before has succeeded.
  pub create_repo_with_metadata-Ends :
      (now : Time) (targets : List TargetWithMetadata) (σ : D.State)
      → Ends
          (join D.temp_dir (codes "tuf") ++ codes "/")
          (plan now targets)
          σ
          (create_repo_with_metadata D now targets σ)
  create_repo_with_metadata-Ends now targets σ =
      subst (Ends _ (plan now targets) σ) (sym (create-run_plan now targets σ))
        (run_plan-Ends _ (plan now targets) σ)
