-- ===== src/Cluster.antt =====
-- The Kubernetes API as the tools call it: the `SecretInterface` of one namespace, which is not
-- code of this repository, and the sequencing of calls that change its state.
pub mod Memory
use scaffolding.Base.{
  ◌≡◌, refl, ◌≢◌, ℕ, String, Option, none, some, Error, Result, ok, err, panic, exit,
}
use scaffolding.Base.{Bytes, List, [], ◌∷◌}
use scaffolding.Base.Dict.{Dict, lookup}

-- `corev1.Secret`; `entries` is the field `Data`, and `none` the nil map.
pub record Secret : Type 0 where
  pub namespace : Bytes
  pub name : Bytes
  pub entries : Option (Dict Bytes)

-- What can be read: a nil map reads as the empty one.
abbrev pub contents : Option (Dict Bytes) → Dict Bytes
contents none = []
contents (some d) = d

-- The two results of `Get`, by what `apierrs.IsNotFound` says of the error.
pub data Got : Type 0 where
  found : Secret → Got
  not_found : Got
  failed : Error → Got

pub record SecretInterface : Type 1 where
  pub State : Type 0
  pub get : Bytes → State → Got
  -- `none` is a nil error
  pub create : Secret → State → Option Error × State
  pub update : Secret → State → Option Error × State

-- Reads as the stored secret does. The server may order a map's keys as it likes, and may give an
-- empty map back as nil.
pub data Reads (s : Secret) : Got → Type 0 where
  reads :
      (t : Secret)
      → ((k : Bytes) → lookup k (contents t.entries) ≡ lookup k (contents s.entries))
      → Reads s (found t)

-- What the tools rely on: after a write that succeeds the written secret is read, and no other
-- secret of the namespace has changed.
pub record IsLawful (S : SecretInterface) : Type 0 where
  pub create_reads :
      (s : Secret) (σ : S.State) → (S.create s σ).0 ≡ none → Reads s (S.get s.name (S.create s σ).1)
  pub create_frame :
      (s : Secret) (σ : S.State) (n : Bytes) → n ≢ s.name → S.get n (S.create s σ).1 ≡ S.get n σ
  pub update_reads :
      (s : Secret) (σ : S.State) → (S.update s σ).0 ≡ none → Reads s (S.get s.name (S.update s σ).1)
  pub update_frame :
      (s : Secret) (σ : S.State) (n : Bytes) → n ≢ s.name → S.get n (S.update s σ).1 ≡ S.get n σ
  pub get_name : (n : Bytes) (σ : S.State) (s : Secret) → S.get n σ ≡ found s → s.name ≡ n

-- A call that may change the state `S`: what was written before an error stays written.
abbrev pub Exec {ℓ} : Type ℓ → Type ℓ → Type ℓ
Exec S A = S → Result A × S

module _ {ℓ} {State A B : Type ℓ} where
  -- What comes after a call that has ended in this way, from the state that it left.
  abbrev pub continue : Result A → (A → Exec State B) → Exec State B
  continue (panic text) next σ = (panic text, σ)
  continue (exit status) next σ = (exit status, σ)
  continue (err e) next σ = (err e, σ)
  continue (ok value) next σ = next value σ

  infixl 10 ◌>>=◌ ◌>>◌
  abbrev pub ◌>>=◌ : Exec State A → (A → Exec State B) → Exec State B
  ◌>>=◌ call next σ = let (result, σ') = call σ in continue result next σ'

  abbrev pub ◌>>◌ : Exec State A → Exec State B → Exec State B
  call >> next = call >>= λ _. next

module _ {State A B : Type 0} where
  -- What follows a call has run if the whole succeeded.
  pub continue-ok :
      (r : Result A) (next : A → Exec State B) (σ : State) (b : B)
      → (continue r next σ).0 ≡ ok b
      → (a : A) × (r ≡ ok a) × ((next a σ).0 ≡ ok b) × ((continue r next σ).1 ≡ (next a σ).1)
  continue-ok (panic text) next σ b h = absurd (cc)
  continue-ok (exit status) next σ b h = absurd (cc)
  continue-ok (err e) next σ b h = absurd (cc)
  continue-ok (ok value) next σ b h = (value, refl, h, refl)

module _ {ℓ} {S A : Type ℓ} where
  -- A computation that leaves the state alone
  abbrev pub lift : Result A → Exec S A
  lift r s = (r, s)

  -- A change of how a call's error is handled
  abbrev pub handle : (Result A → Result A) → Exec S A → Exec S A
  handle h m s = let (r, s') = m s in (h r, s')

-- What holds of a state and of all that may come after it holds in the end.
pub continue-elim :
    {S A B : Type 0} (P : S → Type 0) (r : Result A) (next : A → Exec S B) (σ : S)
    → P σ
    → ((a : A) → P (next a σ).1)
    → P (continue r next σ).1
continue-elim P (ok a) next σ p h = h a
continue-elim P (err e) next σ p h = p
continue-elim P (panic t) next σ p h = p
continue-elim P (exit n) next σ p h = p
