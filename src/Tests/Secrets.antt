-- ===== src/Tests/Secrets.antt =====
-- Secrets in memory.
use scaffolding.Base.{
  ◌≡◌, refl, Bytes, none, some, List, [], ◌∷◌, codes, ok, panic, bytes_dec, ◌↔◌, String,
}
use scaffolding.Base.Dict.{Dict, lookup, keys, insert}
use scaffolding.Cluster.{Secret, found}
use scaffolding.Cluster.Memory.{memory, memory-IsLawful, find, store}
use scaffolding.Secret.{reconcile_secret}
use scaffolding.Secret.Effects.{Shows, overlay, stored, reconcile_secret-Shows}
use scaffolding.Secret.Replay.{Wanted, view, replay, reconcile_all, reconcile_all-replay}
use scaffolding.Secret.Outcomes.{reconcile_secret-panic, reconcile_secret_idem, NilMap}

abbrev ns : Bytes
ns = codes "ctlog"

abbrev name : Bytes
name = codes "keys"

abbrev wanted : Dict Bytes
wanted = (codes "public", 1 ∷ 2 ∷ []) ∷ (codes "config", 3 ∷ []) ∷ []

abbrev kept : Secret
kept = record {
  namespace = ns;
  name = name;
  entries = some ((codes "public", 9 ∷ []) ∷ (codes "other", 7 ∷ []) ∷ []);
}

abbrev empty : Secret
empty = record { namespace = ns; name = name; entries = none }

abbrev neighbour : Secret
neighbour = record { namespace = ns; name = codes "other"; entries = none }

abbrev before : List Secret
before = neighbour ∷ kept ∷ []

reconciles : (reconcile_secret memory name ns wanted before).0 ≡ ok tt
unfolding find store reconcile_secret bytes_dec lookup keys insert
reconciles = refl

reconcile_secret-Shows_example :
    Shows
      (overlay wanted (stored (memory.get name before)))
      (memory.get name (reconcile_secret memory name ns wanted before).1)
reconcile_secret-Shows_example =
    reconcile_secret-Shows memory memory-IsLawful name ns wanted before reconciles

-- What `reconcile_secret` leaves behind.
abbrev after : List Secret
after = (reconcile_secret memory name ns wanted before).1

reconcile_secret-panic_example :
    ((t : String) × ((reconcile_secret memory name ns wanted (empty ∷ [])).0 ≡ panic t)) ↔ (
      (s : Secret) × (memory.get name (empty ∷ []) ≡ found s)
      × NilMap memory name ns wanted s.entries
      × (reconcile_secret memory name ns wanted (empty ∷ [])
          ≡ (panic "assignment to entry in nil map", empty ∷ [])))
reconcile_secret-panic_example = reconcile_secret-panic memory name ns wanted (empty ∷ [])

reconcile_secret_idem_example : reconcile_secret memory name ns wanted after ≡ (ok tt, after)
reconcile_secret_idem_example =
    reconcile_secret_idem memory name ns wanted before memory-IsLawful reconciles

-- Two secrets, and the first one again.
abbrev calls : List Wanted
calls =
    record { name = name; namespace = ns; entries = wanted }
    ∷ record { name = codes "root"; namespace = ns; entries = (codes "root", 4 ∷ []) ∷ [] }
    ∷ record { name = name; namespace = ns; entries = (codes "config", 5 ∷ []) ∷ [] }
    ∷ []

all_succeed : (reconcile_all memory calls before).0 ≡ ok tt
unfolding find store reconcile_secret bytes_dec lookup keys insert
all_succeed = refl

reconcile_all-replay_example :
    view memory (reconcile_all memory calls before).1 ≡ replay calls (view memory before)
reconcile_all-replay_example = reconcile_all-replay memory memory-IsLawful calls before all_succeed
