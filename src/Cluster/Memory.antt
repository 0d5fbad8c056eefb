-- ===== src/Cluster/Memory.antt =====
-- Secrets kept in a list: an implementation of the interface, in which every write succeeds.
use scaffolding.Base.{◌≡◌, refl, ◌≢◌, Bytes, none, List, [], ◌∷◌, arith, ◌==◌, if◌then◌else◌}
use scaffolding.Cluster.{Secret, Got, found, not_found, SecretInterface, IsLawful, reads}

unfoldable pub find : Bytes → List Secret → Got
find n [] = not_found
find n (s ∷ ss) = if s.name == n then found s else find n ss

unfoldable pub store : Secret → List Secret → List Secret
store s [] = s ∷ []
store s (t ∷ ts) = if t.name == s.name then s ∷ ts else t ∷ store s ts

abbrev pub memory : SecretInterface
memory = record {
  State = List Secret;
  get = find;
  create = λ s ss. (none, store s ss);
  update = λ s ss. (none, store s ss);
}

find-store_self : (s : Secret) (ss : List Secret) → find s.name (store s ss) ≡ found s
unfolding find store
find-store_self s [] = ground arith
find-store_self s (t ∷ ts) = ground (arith, find-store_self s ts)

find-store_ne :
    (s : Secret) (ss : List Secret) (n : Bytes) → n ≢ s.name → find n (store s ss) ≡ find n ss
unfolding find store
find-store_ne s [] n h = ground arith
find-store_ne s (t ∷ ts) n h = ground (arith, find-store_ne s ts n h)

name-find : (n : Bytes) (ss : List Secret) (s : Secret) → find n ss ≡ found s → s.name ≡ n
unfolding find
name-find n [] s h = cc
name-find n (t ∷ ts) s h = ground (arith, name-find n ts s)

pub memory-IsLawful : IsLawful memory
memory-IsLawful = record {
  create_reads = λ s ss h. rw find-store_self (reads s (λ k. refl));
  create_frame = λ s ss n h. find-store_ne s ss n h;
  update_reads = λ s ss h. rw find-store_self (reads s (λ k. refl));
  update_frame = λ s ss n h. find-store_ne s ss n h;
  get_name = name-find;
}
