-- ===== src/Repo/TrustedRoot/Gather.antt =====
-- What the loop over the targets collects for the time stamping authority: the targets of that
-- usage in the order of their names, whatever other targets there are.
use scaffolding.Base.{
  ◌≡◌, ap, ◌∙◌, Bytes, Bool, List, [], ◌∷◌, ◌++◌, ok, ◌>>=◌, >>=-eq-ok, contains, codes, ◌==◌,
  if◌then◌else◌, arith,
}
use scaffolding.Repo.{TargetWithMetadata, tsa_target}
use scaffolding.Repo.Usage.{get_target_usage}
use scaffolding.Repo.Sort.{sort_targets}
use scaffolding.Repo.Sort.Laws.{Reorder, sort_targets-Reorder}
use scaffolding.Repo.Sort.Filter.{select, select-sort_targets}
use scaffolding.Repo.External.{External}
use scaffolding.Repo.TrustedRoot.{
  Collected, nothing, RootLib, add_fulcio, add_tsa, add_rekor, add_ctlog, add_target, collect,
  trusted_root_of, construct_trusted_root,
}

-- The three fields that hold the chain of the time stamping authority.
pub record TsaFiles : Type 0 where
  pub leaf : Bytes
  pub intermed : List Bytes
  pub root : Bytes

abbrev pub tsa_files : {Time : Type 0} → Collected Time → TsaFiles
tsa_files s = record { leaf = s.tsa_leaf; intermed = s.tsa_intermed; root = s.tsa_root }

abbrev pub is_tsa : TargetWithMetadata → Bool
is_tsa t = get_target_usage t.name == tsa_target

abbrev pub tsa_step : TargetWithMetadata → TsaFiles → TsaFiles
tsa_step t f =
    if contains t.name (codes "leaf")
    then record f { leaf = t.bytes }
    else if contains t.name (codes "intermediate")
    then record f { intermed = f.intermed ++ (t.bytes ∷ []) }
    else record f { root = t.bytes }

-- The loop on targets of this usage alone.
unfoldable pub gather_tsa : List TargetWithMetadata → TsaFiles → TsaFiles
gather_tsa [] f = f
gather_tsa (t ∷ ts) f = gather_tsa ts (tsa_step t f)

add_tsa-tsa_step :
    {Time : Type 0} (t : TargetWithMetadata) (s : Collected Time)
    → tsa_files (add_tsa t s) ≡ tsa_step t (tsa_files s)
unfolding add_tsa
add_tsa-tsa_step t s = ground arith

module _ (E : External) (now : E.Time) where
  rekor_same :
      (t : TargetWithMetadata) (s s' : Collected E.Time)
      → add_rekor E now t s ≡ ok s'
      → tsa_files s' ≡ tsa_files s
  unfolding add_rekor
  rekor_same t s s' h = ground arith

  ctlog_same :
      (t : TargetWithMetadata) (s s' : Collected E.Time)
      → add_ctlog E now t s ≡ ok s'
      → tsa_files s' ≡ tsa_files s
  unfolding add_ctlog
  ctlog_same t s s' h = ground arith

  add_target-tsa_files :
      (usage : Bytes) (t : TargetWithMetadata) (s s' : Collected E.Time)
      → add_target E now usage t s ≡ ok s'
      → tsa_files s' ≡ (if usage == tsa_target then tsa_step t (tsa_files s) else tsa_files s)
  unfolding add_target add_fulcio
  add_target-tsa_files usage t s s' h = ground (arith, rekor_same t s s', ctlog_same t s s')

  collect-gather_tsa :
      (ts : List TargetWithMetadata) (s s' : Collected E.Time)
      → collect E now ts s ≡ ok s'
      → tsa_files s' ≡ gather_tsa (select is_tsa ts) (tsa_files s)
  unfolding collect gather_tsa
  collect-gather_tsa [] s s' h = ground arith
  collect-gather_tsa (t ∷ ts) s s' h =
      let (a, e, r) =
        >>=-eq-ok (add_target E now (get_target_usage t.name) t s) (collect E now ts) h in
      ground (
        arith,
        add_target-tsa_files (get_target_usage t.name) t s a e,
        collect-gather_tsa ts a s' r,
      )

  -- The chain that the loop finds is that of the targets with the usage of the authority, in the
  -- order of their names.
  pub collect-sort_targets :
      (ts : List TargetWithMetadata) (s' : Collected E.Time)
      → collect E now (sort_targets ts) nothing ≡ ok s'
      → tsa_files s'
        ≡ gather_tsa (sort_targets (select is_tsa ts)) (tsa_files {Time = E.Time} nothing)
  collect-sort_targets ts s' h =
      collect-gather_tsa (sort_targets ts) nothing s' h
      ∙ ap (λ l. gather_tsa l (tsa_files {Time = E.Time} nothing)) (select-sort_targets is_tsa ts)

  -- trusted_root.json does not depend on the order in which the map of the files is read.
  pub construct_trusted_root-Reorder :
      (R : RootLib E) {l m : List TargetWithMetadata}
      → Reorder l m
      → construct_trusted_root E now R l ≡ construct_trusted_root E now R m
  unfolding construct_trusted_root
  construct_trusted_root-Reorder R r =
      ap (λ ts. collect E now ts nothing >>= trusted_root_of E now R) (sort_targets-Reorder r)
