-- ===== src/Server/Run.antt =====
-- `main` of the TUF server: its modes.
pub mod Kept
use scaffolding.Base
use scaffolding.Base.{
  [], Bytes, Bool, true, false, not, ◌&&◌, Option, none, some, codes, Result, ok, err, panic, exit,
  or_fatal, ◌++◌, ◌==◌, if◌then◌else◌,
}
use scaffolding.Cluster.{Exec, ◌>>=◌, ◌>>◌, lift, handle}
use scaffolding.Repo.Paths.{join}
use scaffolding.Server.Init.{ServerWorld, ServerFlags, Place, on_files, init_tuf_repo}

abbrev pub mode_init : Bytes
mode_init = codes "init"

abbrev pub mode_init_and_serve : Bytes
mode_init_and_serve = codes "init-and-serve"

abbrev pub mode_serve : Bytes
mode_serve = codes "serve"

abbrev pub mode_init_no_overwrite : Bytes
mode_init_no_overwrite = codes "init-no-overwrite"

-- `serve`, `init` and `overwrite`
pub record Plan : Type 0 where
  pub serve : Bool
  pub init : Bool
  pub overwrite : Bool

-- The `switch` over the mode.
unfoldable pub plan_of : ServerFlags → Result Plan
plan_of flags =
    if flags.mode == mode_init
    then ok (record { serve = false; init = true; overwrite = true })
    else if flags.mode == mode_init_and_serve
    then ok (record { serve = true; init = true; overwrite = true })
    else if flags.mode == mode_init_no_overwrite
    then ok (record { serve = false; init = true; overwrite = false })
    else if flags.mode == mode_serve
    then if flags.target_dir == []
      then exit 1
      else ok (record { serve = true; init = false; overwrite = true })
    else exit 1

module _ (W : ServerWorld) (flags : ServerFlags) where
  -- The directory of the repository, or a new one.
  unfoldable pub target_dir : Exec (Place W) Bytes
  target_dir =
      if flags.target_dir == []
      then handle or_fatal (on_files W (W.mkdir_temp (codes "tuf-serve")))
      else lift (ok flags.target_dir)

  -- The repository is made, unless it is there and may not be overwritten.
  unfoldable pub init_target : Bool → Bytes → Exec (Place W) (Unit {0})
  unfolding init_tuf_repo
  init_target overwrite dir p =
      if W.exists (join dir (codes "repository/root.json")) p.files && not overwrite
      then (ok tt, p)
      else handle or_fatal (init_tuf_repo W flags dir) p

  -- `http.ListenAndServe` on the files of the repository, whose error panics.
  unfoldable pub serve_files : Bytes → Exec (Place W) (Unit {0})
  serve_files dir p = elim (W.listen (join dir (codes "repository")) p.files) [
    | none ↦ (ok tt, p)
    | some e ↦ (panic "ListenAndServe", p)
  ]

  unfoldable pub follow : Plan → Exec (Place W) (Unit {0})
  unfolding target_dir init_target serve_files
  follow plan = do
    dir ← target_dir
    if plan.init then init_target plan.overwrite dir else lift (ok tt)
    if plan.serve then serve_files dir else lift (ok tt)

  -- `main`
  unfoldable pub run_server : Exec (Place W) (Unit {0})
  unfolding plan_of follow
  run_server = lift (plan_of flags) >>= follow
