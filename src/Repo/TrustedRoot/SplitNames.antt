-- ===== src/Repo/TrustedRoot/SplitNames.antt =====
-- The names that `SplitCertChain` gives the files of the time stamping authority: their usage, their
-- part in the chain, and their order. Ten intermediates have names of one digit.
use scaffolding.Base.{
  ℕ, zero, suc, ◌<◌, ◌≡◌, refl, Bytes, Bool, true, false, codes, contains, arith, bytes_dec,
  decimal, ◌==◌, not, ◌&&◌, ◌||◌, eqb,
}
use scaffolding.Base.Order.{less}
use scaffolding.Certs.{leaf_name, root_name, intermediate_name}
use scaffolding.Repo.{tsa_target}
use scaffolding.Repo.Usage.{get_target_usage}

abbrev pub tsa : Bytes
tsa = codes "tsa"

all_below : ℕ → (ℕ → Bool) → Bool
all_below zero f = true
all_below (suc n) f = f n && all_below n f

all_below_sound : (n : ℕ) (f : ℕ → Bool) (i : ℕ) → all_below n f ≡ true → i < n → f i ≡ true
unfolding all_below
all_below_sound zero f i h lt = absurd (omega arith)
all_below_sound (suc n) f i h lt = ground (arith, all_below_sound n f i)

-- Every check of this file, at one number.
checks : ℕ → Bool
checks i =
    let name = intermediate_name tsa i in
    get_target_usage name == tsa_target
    && not (contains name (codes "leaf"))
    && contains name (codes "intermediate")
    && not (less (leaf_name tsa) name)
    && (eqb i 9 || not (less (intermediate_name tsa (suc i)) name))

checks_table : all_below 10 checks ≡ true
unfolding all_below checks intermediate_name leaf_name decimal get_target_usage contains less
    bytes_dec
checks_table = refl

pub usage-leaf_name : get_target_usage (leaf_name tsa) ≡ tsa_target
unfolding get_target_usage leaf_name
usage-leaf_name = refl

pub usage-root_name : get_target_usage (root_name tsa) ≡ tsa_target
unfolding get_target_usage root_name
usage-root_name = refl

pub contains-leaf_name : contains (leaf_name tsa) (codes "leaf") ≡ true
unfolding contains leaf_name
contains-leaf_name = refl

pub contains-root_name :
    (contains (root_name tsa) (codes "leaf") ≡ false)
    × (contains (root_name tsa) (codes "intermediate") ≡ false)
unfolding contains root_name
contains-root_name = (refl, refl)

pub less-root_name-leaf_name : less (root_name tsa) (leaf_name tsa) ≡ false
unfolding less root_name leaf_name
less-root_name-leaf_name = refl

pub record IsOrdered (i : ℕ) : Type 0 where
  pub usage : get_target_usage (intermediate_name tsa i) ≡ tsa_target
  pub no_leaf : contains (intermediate_name tsa i) (codes "leaf") ≡ false
  pub inter : contains (intermediate_name tsa i) (codes "intermediate") ≡ true
  pub before_leaf : less (leaf_name tsa) (intermediate_name tsa i) ≡ false
  pub before_next :
      suc i < 10 → less (intermediate_name tsa (suc i)) (intermediate_name tsa i) ≡ false

pub intermediate_name-IsOrdered : (i : ℕ) → i < 10 → IsOrdered i
unfolding checks
intermediate_name-IsOrdered i lt =
    let h = all_below_sound 10 checks i checks_table lt in
    record {
      usage = ground arith;
      no_leaf = ground arith;
      inter = ground arith;
      before_leaf = ground arith;
      before_next = λ lt'. ground arith;
    }
