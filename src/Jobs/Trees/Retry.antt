-- ===== src/Jobs/Trees/Retry.antt =====
-- The loop of `updateTree` tries again exactly while the server is unavailable.
use scaffolding.Base.{
  ℕ, zero, suc, ◌+◌, ◌<◌, ◌≡◌, refl, ap, ◌∙◌, subst, Bytes, List, Result, ok, err, panic, wrapf,
  arith,
}
use scaffolding.Jobs.Trees.{
  Tree, Answer, updated, unavailable, refused, retry, AdminClient, UpdateFlags, update_request,
  update_tree,
}

abbrev pub IsUnavailable : Answer → Type 0
IsUnavailable (updated t) = ⊥
IsUnavailable (unavailable e) = Unit
IsUnavailable (refused e) = ⊥

-- What an answer other than Unavailable makes of the call.
abbrev pub final : Answer → Result Tree
final (updated tree) = ok tree
final (unavailable e) = panic "no fuel"
final (refused e) = err (wrapf "failed to UpdateTree(%+v): %T %w" e)

retry-last :
    (fuel : ℕ) (answer : ℕ → Answer) (i : ℕ) (a : Answer)
    → answer i ≡ a
    → ¬ IsUnavailable a
    → retry (suc fuel) answer i ≡ final a
unfolding retry
retry-last fuel answer i (updated t) e n = rw (e, retry) refl
retry-last fuel answer i (unavailable x) e n = absurd (n tt)
retry-last fuel answer i (refused x) e n = rw (e, retry) refl

retry-again :
    (fuel : ℕ) (answer : ℕ → Answer) (i : ℕ) (a : Answer)
    → answer i ≡ a
    → IsUnavailable a
    → retry (suc fuel) answer i ≡ retry fuel answer (suc i)
unfolding retry
retry-again fuel answer i (updated t) e u = absurd u
retry-again fuel answer i (unavailable x) e u = rw (e, retry) refl
retry-again fuel answer i (refused x) e u = absurd u

retry-final :
    (k fuel : ℕ) (answer : ℕ → Answer) (i : ℕ)
    → k < fuel
    → ((j : ℕ) → j < k → IsUnavailable (answer (j + i)))
    → ¬ IsUnavailable (answer (k + i))
    → retry fuel answer i ≡ final (answer (k + i))
retry-final k zero answer i lt u n = absurd (omega arith)
retry-final zero (suc fuel) answer i lt u n =
    let zero_plus : i ≡ 0 + i = omega arith in
    retry-last fuel answer i (answer (0 + i)) (ap answer zero_plus) n
retry-final (suc k) (suc fuel) answer i lt u n =
    retry-again fuel answer i (answer (0 + i)) (ap answer zero_plus) (u 0 (omega arith))
    ∙ subst (λ m. retry fuel answer (suc i) ≡ final (answer m)) shift
        (retry-final k fuel answer (suc i) (omega arith)
          (λ j l. subst (λ m. IsUnavailable (answer m)) (omega arith) (u (suc j) (omega arith)))
          (λ a. n (subst (λ m. IsUnavailable (answer m)) shift a)))
  where
    zero_plus : i ≡ 0 + i
    zero_plus = omega arith

    shift : k + suc i ≡ suc k + i
    shift = omega arith

-- If the request can be made and the server is unavailable to the first `k` calls and not to the
-- next, `updateTree` returns what the server answers to that call, its tree or the error wrapped;
-- fuel for one more call than `k` is enough.
pub update_tree-final :
    (A : AdminClient) (flags : UpdateFlags) (tree : Tree) (paths : List Bytes) (k fuel : ℕ)
    → update_request A flags ≡ ok (tree, paths)
    → A.dial_options ≡ ok tt
    → A.new_client flags.admin_server ≡ ok tt
    → k < fuel
    → ((j : ℕ) → j < k → IsUnavailable (A.update_tree tree paths j))
    → ¬ IsUnavailable (A.update_tree tree paths k)
    → update_tree A flags fuel ≡ final (A.update_tree tree paths k)
unfolding update_tree
update_tree-final A flags tree paths k fuel r d c lt u n =
    rw (r, d, c)
      (subst (λ m. retry fuel (A.update_tree tree paths) 0 ≡ final (A.update_tree tree paths m))
        plus_zero
        (retry-final k fuel (A.update_tree tree paths) 0 lt
          (λ j l. subst (λ m. IsUnavailable (A.update_tree tree paths m)) (omega arith) (u j l))
          (λ a. n (subst (λ m. IsUnavailable (A.update_tree tree paths m)) plus_zero a))))
  where
    plus_zero : k + 0 ≡ k
    plus_zero = omega arith
