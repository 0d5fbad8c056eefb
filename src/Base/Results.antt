-- ===== src/Base/Results.antt =====
-- How a Go call ends: with a value, with an error, by a panic, or by the end of the process.
-- An error keeps the constant text of its message and the error that it wraps; what is formatted
-- into the message is left out.
use Prim.Native.Nat.{ℕ}
use Prim.Native.String.{String}
use mathlib.Core.Path.{◌≡◌, refl}
use mathlib.Core.Option.{Option, none, some}

pub data Error : Type 0 where
  errorf : String → Error
  wrapf : String → Error → Error

-- `exit` is `os.Exit` with a status; `log.Fatalf` and the logger's `Fatalf` exit with 1.
pub data Result {ℓ} (A : Type ℓ) : Type ℓ where
  ok : A → Result A
  err : Error → Result A
  panic : String → Result A
  exit : ℕ → Result A

module _ {ℓ κ} {A : Type ℓ} {B : Type κ} where
  infixl 5 ◌>>=◌ ◌>>◌
  -- The early return on everything but a value.
  abbrev pub ◌>>=◌ : Result A → (A → Result B) → Result B
  panic text >>= next = panic text
  exit status >>= next = exit status
  err e >>= next = err e
  ok value >>= next = next value

  abbrev pub ◌>>◌ : Result A → Result B → Result B
  first >> next = first >>= λ _. next

  -- What comes after an early return has run only on a value.
  pub >>=-eq-ok :
      (r : Result A) (next : A → Result B) {b : B}
      → (r >>= next) ≡ ok b
      → (a : A) × (r ≡ ok a) × (next a ≡ ok b)
  >>=-eq-ok (panic text) next e = cc
  >>=-eq-ok (exit status) next e = cc
  >>=-eq-ok (err x) next e = cc
  >>=-eq-ok (ok value) next e = (value, refl, e)

-- `if err != nil { return fmt.Errorf(text, err) }`
abbrev pub wrap {ℓ} : {A : Type ℓ} → String → Result A → Result A
wrap s (ok a) = ok a
wrap s (err e) = err (wrapf s e)
wrap s (panic t) = panic t
wrap s (exit n) = exit n

-- `Panicf` on an error
abbrev pub or_panic {ℓ} : {A : Type ℓ} → String → Result A → Result A
or_panic s (ok a) = ok a
or_panic s (err e) = panic s
or_panic s (panic t) = panic t
or_panic s (exit n) = exit n

-- `Fatalf` on an error
abbrev pub or_fatal {ℓ} : {A : Type ℓ} → Result A → Result A
or_fatal (ok a) = ok a
or_fatal (err e) = exit 1
or_fatal (panic t) = panic t
or_fatal (exit n) = exit n

-- A lookup whose absence is an error
abbrev pub or_error {ℓ} : {A : Type ℓ} → String → Option A → Result A
or_error s (some a) = ok a
or_error s none = err (errorf s)

pub wrap-eq-ok {ℓ} : {A : Type ℓ} (s : String) (m : Result A) {a : A} → wrap s m ≡ ok a → m ≡ ok a
wrap-eq-ok s (ok a) h = h
wrap-eq-ok s (err e) h = cc
wrap-eq-ok s (panic t) h = cc
wrap-eq-ok s (exit n) h = cc

pub or_panic-eq-ok {ℓ} :
    {A : Type ℓ} (s : String) (m : Result A) {a : A} → or_panic s m ≡ ok a → m ≡ ok a
or_panic-eq-ok s (ok a) h = h
or_panic-eq-ok s (err e) h = cc
or_panic-eq-ok s (panic t) h = cc
or_panic-eq-ok s (exit n) h = cc

pub or_fatal-eq-ok {ℓ} : {A : Type ℓ} (m : Result A) {a : A} → or_fatal m ≡ ok a → m ≡ ok a
or_fatal-eq-ok (ok a) h = h
or_fatal-eq-ok (err e) h = cc
or_fatal-eq-ok (panic t) h = cc
or_fatal-eq-ok (exit n) h = cc

pub ok-injective {ℓ} : {A : Type ℓ} {a b : A} → ok a ≡ ok b → a ≡ b
ok-injective h = cc
