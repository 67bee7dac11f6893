-- ===== src/PrioritizedQueue/ByClass.antt =====
-- `remove_by_class` over all sub-queues: one class goes, from every lane and priority.
use my_git_hub.Common.{
  ℕ, ◌+◌, ◌%◌, ◌≡◌, refl, sym, ap, ◌∙◌, Option, none, some, List, [], ◌∷◌, ◌++◌, append_assoc,
  arith, ◌==◌, if◌then◌else◌, Bool-cases, inl, inr,
}
use my_git_hub.Common.Words.{u64_mod, sub64}
use my_git_hub.Common.OrderedMap.{find, AllValues, key_sum}
use my_git_hub.PrioritizedQueue.Defs.{
  PrioritizedQueue, SubQueues, drop_class_queue, drop_class_high, remove_by_class,
}
use my_git_hub.PrioritizedQueue.View.{Lane, high, normal, pending, Good, IsValid}
use my_git_hub.PrioritizedQueue.Removal.{
  keep_full, keep_full-SortedFrom, keep_full-Good, items_in-keep_full,
}
use my_git_hub.PrioritizedQueue.SubQueue.{
  ListPairs, SubQueue, empty, sub_remove_by_class, drop_class,
}
use my_git_hub.PrioritizedQueue.SubQueue.View.{class_items}
use my_git_hub.PrioritizedQueue.SubQueue.Invariant
use my_git_hub.PrioritizedQueue.SubQueue.ByClass.{
  items_of, class_items-sub_remove_by_class, sub_remove_by_class-IsValid, out-sub_remove_by_class,
}

module _ {ℓ} {T : Type ℓ} (k : ℕ) where
  abbrev without : SubQueue T → SubQueue T
  without sq = (sub_remove_by_class k none sq).0

  drop_class-out_irrelevant :
      (o : Option (ListPairs T)) (out : Option (List T)) (sq : SubQueue T)
      → (drop_class k o out sq).0 ≡ (drop_class k o none sq).0
  unfolding drop_class
  drop_class-out_irrelevant none out sq = refl
  drop_class-out_irrelevant (some l) out sq = refl

  -- What is left does not depend on `out`.
  without_lem :
      (out : Option (List T)) (sq : SubQueue T) → (sub_remove_by_class k out sq).0 ≡ without sq
  unfolding sub_remove_by_class
  without_lem out sq = drop_class-out_irrelevant (find k sq.q) out sq

  drop_class_queue-keep_full :
      (out : Option (List T)) (total : ℕ) (m : SubQueues T)
      → (drop_class_queue k out total m).2 ≡ keep_full without m
  unfolding drop_class_queue keep_full
  drop_class_queue-keep_full out total [] = refl
  drop_class_queue-keep_full out total ((p, sq) ∷ m) = rw (without_lem out sq) (
      ap (λ r. if empty (without sq) then r else (p, without sq) ∷ r)
        (drop_class_queue-keep_full (sub_remove_by_class k out sq).1
          (if empty (without sq) then sub64 total p else total) m))

  drop_class_high-keep_full :
      (out : Option (List T)) (m : SubQueues T) → (drop_class_high k out m).1 ≡ keep_full without m
  unfolding drop_class_high keep_full
  drop_class_high-keep_full out [] = refl
  drop_class_high-keep_full out ((p, sq) ∷ m) = rw (without_lem out sq) (
      ap (λ r. if empty (without sq) then r else (p, without sq) ∷ r)
        (drop_class_high-keep_full (sub_remove_by_class k out sq).1 m))

  drop_class_queue-total :
      (out : Option (List T)) (total x : ℕ) (m : SubQueues T)
      → total ≡ (key_sum m + x) % u64_mod
      → (drop_class_queue k out total m).1 ≡ (key_sum (keep_full without m) + x) % u64_mod
  unfolding drop_class_queue keep_full
  drop_class_queue-total out total x [] e = e
  drop_class_queue-total out total x ((p, sq) ∷ m) e = elim (Bool-cases (empty (without sq))) [
    | inl y ↦
        rw (without_lem out sq, y)
          (drop_class_queue-total (sub_remove_by_class k out sq).1 (sub64 total p) x m
            (omega arith))
    | inr n ↦
        rw (without_lem out sq, n)
          (omega (
            arith,
            drop_class_queue-total (sub_remove_by_class k out sq).1 total (p + x) m (omega arith),
          ))
  ]

  -- The items of the class, the sub-queue of the greatest priority first.
  unfoldable pub class_in_all : SubQueues T → List T
  class_in_all [] = []
  class_in_all ((p, sq) ∷ m) = class_in_all m ++ items_of (class_items k sq)

  regroup : (a b c : List T) → a ++ (b ++ c) ≡ (a ++ b) ++ c
  regroup a b c = sym (append_assoc a b c)

  drop_class_queue-out :
      (out : List T) (total : ℕ) (m : SubQueues T)
      → (drop_class_queue k (some out) total m).0 ≡ some (class_in_all m ++ out)
  unfolding drop_class_queue class_in_all
  drop_class_queue-out out total [] = refl
  drop_class_queue-out out total ((p, sq) ∷ m) = rw (out-sub_remove_by_class k out sq) (
      drop_class_queue-out (items_of (class_items k sq) ++ out) _ m
      ∙ ap some (regroup (class_in_all m) (items_of (class_items k sq)) out))

  drop_class_high-out :
      (out : List T) (m : SubQueues T)
      → (drop_class_high k (some out) m).0 ≡ some (class_in_all m ++ out)
  unfolding drop_class_high class_in_all
  drop_class_high-out out [] = refl
  drop_class_high-out out ((p, sq) ∷ m) = rw (out-sub_remove_by_class k out sq) (
      drop_class_high-out (items_of (class_items k sq) ++ out) m
      ∙ ap some (regroup (class_in_all m) (items_of (class_items k sq)) out))

  left-IsValid :
      (m : SubQueues T) → AllValues Good m → AllValues (λ sq. Invariant.IsValid (without sq)) m
  left-IsValid [] g = tt
  left-IsValid ((p, sq) ∷ m) g = (sub_remove_by_class-IsValid k none g.0.0, left-IsValid m g.1)

  abbrev blank : ℕ → ListPairs T → ListPairs T
  blank i l = if i == k then [] else l

  left_items :
      (i : ℕ) (m : SubQueues T)
      → AllValues Good m
      → AllValues (λ sq. class_items i (without sq) ≡ blank i (class_items i sq)) m
  left_items i [] g = tt
  left_items i ((p, sq) ∷ m) g =
      (class_items-sub_remove_by_class i k none g.0.0, left_items i m g.1)

  -- `remove_by_class` keeps the invariant of the queue.
  pub remove_by_class-IsValid :
      (out : Option (List T)) {pq : PrioritizedQueue T}
      → IsValid pq
      → IsValid (remove_by_class k out pq).0
  unfolding remove_by_class
  remove_by_class-IsValid out {pq} v =
      rw
        (
          drop_class_queue-keep_full out pq.total_priority pq.queue,
          drop_class_high-keep_full _ pq.high_queue,
        )
        (record {
          sorted = keep_full-SortedFrom _ 0 pq.queue v.sorted;
          sorted_high = keep_full-SortedFrom _ 0 pq.high_queue v.sorted_high;
          good = keep_full-Good _ pq.queue (left-IsValid pq.queue v.good);
          good_high = keep_full-Good _ pq.high_queue (left-IsValid pq.high_queue v.good_high);
          total = omega (
            arith,
            drop_class_queue-total out pq.total_priority 0 pq.queue (omega (arith, v.total)),
          );
        })

  -- After `remove_by_class` on a valid queue the lists of the class `k` are empty, all others as they were.
  pub pending-remove_by_class :
      (l : Lane) (p i : ℕ) (out : Option (List T)) {pq : PrioritizedQueue T}
      → IsValid pq
      → pending l p i (remove_by_class k out pq).0 ≡ (if i == k then [] else pending l p i pq)
  unfolding remove_by_class
  pending-remove_by_class high p i out {pq} v =
      rw
        (drop_class_high-keep_full (drop_class_queue k out pq.total_priority pq.queue).0
          pq.high_queue)
        (items_in-keep_full _ (blank i) 0 p i pq.high_queue (ground arith)
          (left_items i pq.high_queue v.good_high) v.sorted_high)
  pending-remove_by_class normal p i out {pq} v =
      rw (drop_class_queue-keep_full out pq.total_priority pq.queue) (
        items_in-keep_full _ (blank i) 0 p i pq.queue (ground arith) (left_items i pq.queue v.good)
          v.sorted)

  -- The list `out` of `remove_by_class` gets the removed items in front of what it holds: those of the high lane first, in each
  -- lane the greatest priority first, and those of one list in their order.
  pub out-remove_by_class :
      (out : List T) (pq : PrioritizedQueue T)
      → (remove_by_class k (some out) pq).1
        ≡ some (class_in_all pq.high_queue ++ (class_in_all pq.queue ++ out))
  unfolding remove_by_class
  out-remove_by_class out pq =
      rw (drop_class_queue-out out pq.total_priority pq.queue)
        (drop_class_high-out (class_in_all pq.queue ++ out) pq.high_queue)
