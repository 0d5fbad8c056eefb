-- ===== src/Jobs/Trees.antt =====
-- tools/trillian/cmd/trillian/createtree/main.go and updatetree/main.go: a tree of the log server,
-- whose id is kept in a config map.
pub mod TreeId
pub mod Retry
use scaffolding.Base.{
  ℕ, zero, suc, ◌+◌, Bytes, Bool, true, false, not, ◌&&◌, Option, none, some, Error, wrapf, String,
  List, [], ◌∷◌, ◌++◌, codes, Result, ok, err, panic, exit, errorf, wrap, or_error, or_fatal, ltb,
  eqb, length, ◌==◌, if◌then◌else◌,
}
use scaffolding.Base
use scaffolding.Base.Int.{ℤ, pos, negsuc, decimal_ℤ}
use scaffolding.Base.Dict.{Dict, lookup, insert}
use scaffolding.Cluster.{Exec, ◌>>=◌, ◌>>◌, lift, handle, continue, contents}

abbrev pub tree_key : Bytes
tree_key = codes "treeID"

-- `trillian.Tree`, with the fields that the tools set or read
pub record Tree : Type 0 where
  pub tree_id : ℤ
  pub tree_state : ℕ
  pub tree_type : ℕ
  pub display_name : Bytes
  pub description : Bytes
  pub max_root_duration : ℤ

-- The cluster's config map and the log server, which are not code of this repository: the entries
-- `Data` of a config map by its namespace and name, and `CreateAndInitTree` over a new connection.
pub record TreeWorld : Type 1 where
  pub State : Type 0
  pub client : Result (Unit {0})
  pub get_config_map : Bytes → Bytes → State → Result (Option (Dict Bytes))
  pub update_config_map : Bytes → Bytes → Dict Bytes → State → Option Error × State
  pub tree_state_value : Dict ℕ
  pub tree_type_value : Dict ℕ
  pub dial_options : Result (Unit {0})
  pub new_client : Bytes → Result (Unit {0})
  pub create_and_init_tree : Tree → State → Result Tree × State

pub record TreeFlags : Type 0 where
  pub namespace : Bytes
  pub config_map : Bytes
  pub admin_server : Bytes
  pub tree_state : Bytes
  pub tree_type : Bytes
  pub display_name : Bytes
  pub description : Bytes
  pub max_root_duration : ℤ
  pub force : Bool

abbrev outcome : Option Error → Result (Unit {0})
outcome none = ok tt
outcome (some e) = err e

module _ (W : TreeWorld) (flags : TreeFlags) where
  -- `newRequest`; the id of the tree in a request is 0.
  unfoldable pub new_request : Result Tree
  new_request =
      Base.◌>>=◌ (or_error "unknown TreeState: %v" (lookup flags.tree_state W.tree_state_value))
        λ ts.
          Base.◌>>=◌ (or_error "unknown TreeType: %v" (lookup flags.tree_type W.tree_type_value))
            λ tt'. ok (record {
              tree_id = pos 0;
              tree_state = ts;
              tree_type = tt';
              display_name = flags.display_name;
              description = flags.description;
              max_root_duration = flags.max_root_duration;
            })

  -- `createTree`
  unfoldable pub create_tree : Exec W.State Tree
  unfolding new_request
  create_tree = do
    req ← lift new_request
    lift (wrap "failed to determine dial options: %w" W.dial_options)
    lift (wrap "failed to dial: %w" (W.new_client flags.admin_server))
    W.create_and_init_tree req

  -- What follows when the tree is to be made.
  unfoldable pub store_new_tree : Dict Bytes → Exec W.State (Unit {0})
  unfolding create_tree decimal_ℤ
  store_new_tree entries = do
    tree ← handle or_fatal create_tree
    λ σ.
        let (e, σ') =
          W.update_config_map flags.namespace flags.config_map
            (insert tree_key (decimal_ℤ tree.tree_id) entries) σ in
        (or_fatal (outcome e), σ')

  unfoldable pub create_if_missing : Dict Bytes → Exec W.State (Unit {0})
  unfolding store_new_tree
  create_if_missing entries = elim (lookup tree_key entries) [
    | none ↦ store_new_tree entries
    | some id ↦ if not flags.force then lift (ok tt) else store_new_tree entries
  ]

  -- `main` of createtree
  unfoldable pub create_tree_main : Exec W.State (Unit {0})
  unfolding create_if_missing
  create_tree_main = do
    lift (or_fatal W.client)
    λ σ.
        continue (or_fatal (W.get_config_map flags.namespace flags.config_map σ))
          (λ d. create_if_missing (contents d)) σ

-- What the admin server answers to one call of `UpdateTree`: a tree, an error with the status code
-- Unavailable, or another error.
pub data Answer : Type 0 where
  updated : Tree → Answer
  unavailable : Error → Answer
  refused : Error → Answer

pub record UpdateFlags : Type 0 where
  pub admin_server : Bytes
  pub tree_state : Bytes
  pub tree_id : ℤ
  pub tree_type : Bytes
  pub print_tree : Bool

-- The values of the two enumerations by name, the connection, and how a tree and a state are shown.
pub record AdminClient : Type 0 where
  pub tree_states : Result (Dict ℕ)
  pub tree_types : Result (Dict ℕ)
  pub dial_options : Result (Unit {0})
  pub new_client : Bytes → Result (Unit {0})
  -- the answer to each call, counted from 0, for a tree and the paths of the mask
  pub update_tree : Tree → List Bytes → ℕ → Answer
  pub format_tree : Tree → Bytes
  pub format_state : ℕ → Bytes

-- The loop over the calls; `fuel` bounds how many are made.
unfoldable pub retry : ℕ → (ℕ → Answer) → ℕ → Result Tree
retry zero answer i = panic "no fuel"
retry (suc fuel) answer i = elim (answer i) [
  | updated tree ↦ ok tree
  | unavailable e ↦ retry fuel answer (suc i)
  | refused e ↦ err (wrapf "failed to UpdateTree(%+v): %T %w" e)
]

-- One optional change: a name that is not empty is looked up, and its field added to the mask.
unfoldable pub change :
    String
    → String
    → Bytes
    → Result (Dict ℕ)
    → Bytes
    → (ℕ → Tree → Tree)
    → Tree × List Bytes
    → Result (Tree × List Bytes)
change no_map invalid name values path set (tree, paths) =
    if ltb 0 (length name)
    then Base.◌>>=◌ (wrap no_map values) (λ m.
      Base.◌>>=◌ (or_error invalid (lookup name m)) (λ n. ok (set n tree, paths ++ (path ∷ []))))
    else ok (tree, paths)

-- The flag that names no tree.
unfoldable pub is_zero : ℤ → Bool
is_zero (pos n) = eqb n 0
is_zero (negsuc n) = false

module _ (A : AdminClient) (flags : UpdateFlags) where
  -- The tree and the mask of the request.
  unfoldable pub update_request : Result (Tree × List Bytes)
  unfolding change
  update_request =
      if flags.admin_server == []
      then err (errorf "empty --admin_server, please provide the Admin server host:port")
      else Base.◌>>=◌
          (change "can't find enum value map for states: %w" "invalid tree state: %v"
            flags.tree_state A.tree_states (codes "tree_state") (λ n t. record t { tree_state = n })
            (
              record {
                tree_id = flags.tree_id;
                tree_state = 0;
                tree_type = 0;
                display_name = [];
                description = [];
                max_root_duration = pos 0;
              },
              [],
            ))
          λ r.
            Base.◌>>=◌
              (change "can't find enum value map for types: %w" "invalid tree type: %v"
                flags.tree_type A.tree_types (codes "tree_type") (λ n t. record t { tree_type = n })
                r)
              λ (tree, paths).
                if ltb 0 (length paths) then ok (tree, paths) else err (errorf "nothing to change")

  -- `updateTree`, with at most `fuel` calls
  unfoldable pub update_tree : ℕ → Result Tree
  unfolding update_request retry
  update_tree fuel = Base.◌>>=◌ update_request λ (tree, paths).
      Base.◌>>=◌ (wrap "failed to determine dial options: %w" A.dial_options) λ _.
        Base.◌>>=◌ (wrap "failed to dial %v: %w" (A.new_client flags.admin_server))
          λ _. retry fuel (A.update_tree tree paths) 0

  -- `main` of updatetree, with the lines that it prints
  unfoldable pub update_tree_main : ℕ → Result (List Bytes)
  unfolding is_zero update_tree
  update_tree_main fuel =
      if is_zero flags.tree_id
      then ok (codes "No tree ID passed in, returning" ∷ [])
      else Base.◌>>=◌ (or_fatal (update_tree fuel)) λ tree. ok (
          (if flags.print_tree then A.format_tree tree else A.format_state tree.tree_state)
          ∷ codes "Completed successfully"
          ∷ [])
