-- ===== src/Files.antt =====
-- The file system as the tools call it; it is a parameter of the model.
use scaffolding.Base.{
  ◌≡◌, ◌≢◌, refl, [], ◌++◌, ℕ, Bytes, Bool, Option, none, some, Error, Result, ok, err,
}
use scaffolding.Cluster.{Exec}

-- The calls of the package `os` that change files.
pub data FileCall : Type 0 where
  mkdir : Bytes → FileCall
  mkdir_all : Bytes → FileCall
  -- `os.OpenFile` with the flags that create and truncate, and the mode
  open_file : Bytes → ℕ → FileCall
  write : Bytes → Bytes → FileCall
  close : Bytes → FileCall
  write_file : Bytes → Bytes → FileCall

-- The path that a call is about.
abbrev pub path_of : FileCall → Bytes
path_of (mkdir p) = p
path_of (mkdir_all p) = p
path_of (open_file p mode) = p
path_of (write p s) = p
path_of (close p) = p
path_of (write_file p s) = p

pub record FileSystem : Type 1 where
  pub State : Type 0
  -- whether `os.Stat` of the path succeeds
  pub exists : Bytes → State → Bool
  -- the error of the call, or `none` for nil, and the files afterwards
  pub run : FileCall → State → Option Error × State

abbrev pub outcome : Option Error → Result (Unit {0})
outcome none = ok tt
outcome (some e) = err e

outcome-eq-ok : (e : Option Error) → outcome e ≡ ok tt → e ≡ none
outcome-eq-ok none h = refl
outcome-eq-ok (some e) h = cc (h)

-- A call whose error is returned.
abbrev pub file_call : (F : FileSystem) → FileCall → Exec F.State (Unit {0})
file_call F c σ = let (e, σ') = F.run c σ in (outcome e, σ')

-- What is relied on: every call succeeds, a file that is opened is empty, what is written is added to
-- it, and no call changes the text of another file, nor does one that makes a directory or closes.
pub record KeepsFiles (F : FileSystem) : Type 0 where
  pub read : Bytes → F.State → Option Bytes
  pub succeeds : (c : FileCall) (σ : F.State) → (F.run c σ).0 ≡ none
  pub opened : (p : Bytes) (m : ℕ) (σ : F.State) → read p (F.run (open_file p m) σ).1 ≡ some []
  pub appended :
      (p s t : Bytes) (σ : F.State)
      → read p σ ≡ some s
      → read p (F.run (write p t) σ).1 ≡ some (s ++ t)
  pub closed : (p q : Bytes) (σ : F.State) → read q (F.run (close p) σ).1 ≡ read q σ
  pub made : (p q : Bytes) (σ : F.State) → read q (F.run (mkdir_all p) σ).1 ≡ read q σ
  pub others :
      (c : FileCall) (q : Bytes) (σ : F.State) → q ≢ path_of c → read q (F.run c σ).1 ≡ read q σ

-- What can be relied on of files where calls may fail: a call that succeeds has its effect, no call
-- changes another file, and to close a file changes none.
pub record ReadsFiles (F : FileSystem) : Type 0 where
  pub read : Bytes → F.State → Option Bytes
  pub opened :
      (p : Bytes) (m : ℕ) (σ : F.State)
      → (F.run (open_file p m) σ).0 ≡ none
      → read p (F.run (open_file p m) σ).1 ≡ some []
  pub appended :
      (p s t : Bytes) (σ : F.State)
      → read p σ ≡ some s
      → (F.run (write p t) σ).0 ≡ none
      → read p (F.run (write p t) σ).1 ≡ some (s ++ t)
  pub closed : (p q : Bytes) (σ : F.State) → read q (F.run (close p) σ).1 ≡ read q σ
  pub others :
      (c : FileCall) (q : Bytes) (σ : F.State) → q ≢ path_of c → read q (F.run c σ).1 ≡ read q σ

-- A call without an error.
pub file_call-eq-ok :
    (F : FileSystem) (c : FileCall) (σ : F.State)
    → (file_call F c σ).0 ≡ ok tt
    → (F.run c σ).0 ≡ none
file_call-eq-ok F c σ h = outcome-eq-ok (F.run c σ).0 h
