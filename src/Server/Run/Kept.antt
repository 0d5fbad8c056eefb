-- ===== src/Server/Run/Kept.antt =====
-- The modes in which the server leaves everything as it is.
use scaffolding.Base.{
  ◌≡◌, ◌⊎◌, inl, inr, refl, [], Bytes, true, false, codes, ok, ◌==◌, arith, bytes_dec,
}
use scaffolding.Repo.Paths.{join}
use scaffolding.Server.Init.{ServerWorld, ServerFlags, Place}
use scaffolding.Server.Run.{
  mode_serve, mode_init_no_overwrite, plan_of, target_dir, init_target, serve_files, follow,
  run_server,
}

-- The server is to leave a repository alone: it is only to serve it, or it finds one and may not
-- overwrite it.
abbrev pub LeavesAlone : (W : ServerWorld) → ServerFlags → Place W → Type 0
LeavesAlone W flags p =
    (flags.mode ≡ mode_serve)
    ⊎ ((flags.mode ≡ mode_init_no_overwrite)
        × (W.exists (join flags.target_dir (codes "repository/root.json")) p.files ≡ true))

plan_serve :
    (flags : ServerFlags)
    → flags.mode ≡ mode_serve
    → (flags.target_dir == []) ≡ false
    → plan_of flags ≡ ok (record { serve = true; init = false; overwrite = true })
unfolding plan_of bytes_dec
plan_serve flags m t = rw (m, t) refl

plan_no_overwrite :
    (flags : ServerFlags)
    → flags.mode ≡ mode_init_no_overwrite
    → plan_of flags ≡ ok (record { serve = false; init = true; overwrite = false })
unfolding plan_of bytes_dec
plan_no_overwrite flags m = rw m refl

module _ (W : ServerWorld) (flags : ServerFlags) (p : Place W) where
  serve_files_keeps : (dir : Bytes) → (serve_files W flags dir p).1 ≡ p
  unfolding serve_files
  serve_files_keeps dir = ground arith

  -- The directory of the flags is taken.
  target_dir_given :
      (flags.target_dir == []) ≡ false → target_dir W flags p ≡ (ok flags.target_dir, p)
  unfolding target_dir
  target_dir_given t = rw t refl

-- In the mode `serve`, and in `init-no-overwrite` with a repository in the directory, the server
-- changes neither the disk nor a secret, however it ends. The directory is given.
pub run_server-Kept :
    (W : ServerWorld) (flags : ServerFlags) (p : Place W)
    → (flags.target_dir == []) ≡ false
    → LeavesAlone W flags p
    → (run_server W flags p).1 ≡ p
unfolding run_server follow init_target
run_server-Kept W flags p t (inl m) =
    rw (plan_serve flags m t, target_dir_given W flags p t)
      (serve_files_keeps W flags p flags.target_dir)
run_server-Kept W flags p t (inr (m, x)) =
    rw (plan_no_overwrite flags m, target_dir_given W flags p t) (rw x refl)
