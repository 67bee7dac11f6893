-- ===== src/PrioritizedQueue/Removal.antt =====
-- `remove_by_filter` and `remove_by_class` over all sub-queues.
use my_git_hub.Common.{
  ℕ, suc, ◌+◌, ◌%◌, ◌<◌, ◌≡◌, refl, sym, ap, Bool, [], ◌∷◌, arith, if◌then◌else◌, Bool-cases, inl,
  inr,
}
use my_git_hub.Common.Words.{u64_mod, u32_mod, sub64}
use my_git_hub.Common.OrderedMap.{find, find_below, SortedFrom, SortedFrom-mono, AllValues, key_sum}
use my_git_hub.PrioritizedQueue.Defs.{
  PrioritizedQueue, SubQueues, filter_queue, filter_high, remove_by_filter,
}
use my_git_hub.PrioritizedQueue.View.{Lane, high, normal, items_in, pending, Good, IsValid}
use my_git_hub.PrioritizedQueue.Settle.{class_items-empty}
use my_git_hub.PrioritizedQueue.SubQueue.{ListPairs, SubQueue, empty, sub_remove_by_filter}
use my_git_hub.PrioritizedQueue.SubQueue.View.{class_items, count}
use my_git_hub.PrioritizedQueue.SubQueue.Invariant
use my_git_hub.PrioritizedQueue.SubQueue.Removal.{
  reject, class_items-sub_remove_by_filter, sub_remove_by_filter-IsValid,
}

module _ {ℓ} {T : Type ℓ} where
  -- Every sub-queue changed by `g`, without those that are empty then.
  unfoldable pub keep_full : (SubQueue T → SubQueue T) → SubQueues T → SubQueues T
  keep_full g [] = []
  keep_full g ((p, sq) ∷ m) = if empty (g sq) then keep_full g m else (p, g sq) ∷ keep_full g m

  pub keep_full-SortedFrom :
      (g : SubQueue T → SubQueue T) (b : ℕ) (m : SubQueues T)
      → SortedFrom b m
      → SortedFrom b (keep_full g m)
  unfolding keep_full
  keep_full-SortedFrom g b [] s = tt
  keep_full-SortedFrom g b ((p, sq) ∷ m) s =
      ground
        (arith, keep_full-SortedFrom g (suc p) m s.1, SortedFrom-mono b (suc p) (keep_full g m))

  pub keep_full-Good :
      (g : SubQueue T → SubQueue T) (m : SubQueues T)
      → AllValues (λ sq. Invariant.IsValid (g sq)) m
      → AllValues Good (keep_full g m)
  unfolding keep_full
  keep_full-Good g [] a = tt
  keep_full-Good g ((p, sq) ∷ m) a = elim (Bool-cases (empty (g sq))) [
    | inl e ↦ rw e (keep_full-Good g m a.1)
    | inr e ↦ rw e ((a.0, e), keep_full-Good g m a.1)
  ]

  -- Each list is changed by `h`, if `g` does so in every sub-queue.
  pub items_in-keep_full :
      (g : SubQueue T → SubQueue T) (h : ListPairs T → ListPairs T) (b j i : ℕ) (m : SubQueues T)
      → h [] ≡ []
      → AllValues (λ sq. class_items i (g sq) ≡ h (class_items i sq)) m
      → SortedFrom b m
      → items_in i (find j (keep_full g m)) ≡ h (items_in i (find j m))
  unfolding keep_full find
  items_in-keep_full g h b j i [] hn a s = sym hn
  items_in-keep_full g h b j i ((p, sq) ∷ m) hn a s = ground (
    arith,
    items_in-keep_full g h (suc p) j i m hn a.1 s.1,
    find_below (suc p) j (keep_full g m) (keep_full-SortedFrom g (suc p) m s.1),
    find_below (suc p) j m s.1,
    class_items-empty i (g sq),
  )

  filter_queue-keep_full :
      (f : T → Bool) (total : ℕ) (m : SubQueues T)
      → (filter_queue f total m).1 ≡ keep_full (sub_remove_by_filter f) m
  unfolding filter_queue keep_full
  filter_queue-keep_full f total [] = refl
  filter_queue-keep_full f total ((p, sq) ∷ m) =
      let sq' = sub_remove_by_filter f sq in
      ap (λ r. if empty sq' then r else (p, sq') ∷ r)
        (filter_queue-keep_full f (if empty sq' then sub64 total p else total) m)

  filter_high-keep_full :
      (f : T → Bool) (m : SubQueues T) → filter_high f m ≡ keep_full (sub_remove_by_filter f) m
  unfolding filter_high keep_full
  filter_high-keep_full f [] = refl
  filter_high-keep_full f ((p, sq) ∷ m) = rw (filter_high-keep_full f m)

  filter_queue-total :
      (f : T → Bool) (total x : ℕ) (m : SubQueues T)
      → total ≡ (key_sum m + x) % u64_mod
      → (filter_queue f total m).0 ≡ (key_sum (keep_full (sub_remove_by_filter f) m) + x) % u64_mod
  unfolding filter_queue keep_full
  filter_queue-total f total x [] e = e
  filter_queue-total f total x ((p, sq) ∷ m) e =
      elim (Bool-cases (empty (sub_remove_by_filter f sq))) [
        | inl y ↦ rw y (filter_queue-total f (sub64 total p) x m (omega arith))
        | inr n ↦ rw n (omega (arith, filter_queue-total f total (p + x) m (omega arith)))
      ]

  -- Fewer than 2 ^ 32 items stand in each sub-queue.
  abbrev pub Small : SubQueue T → Type 0
  Small sq = count sq.q < u32_mod

  filtered-IsValid :
      (f : T → Bool) (m : SubQueues T)
      → AllValues Small m
      → AllValues Good m
      → AllValues (λ sq. Invariant.IsValid (sub_remove_by_filter f sq)) m
  filtered-IsValid f [] a g = tt
  filtered-IsValid f ((p, sq) ∷ m) a g =
      (sub_remove_by_filter-IsValid f a.0 g.0.0, filtered-IsValid f m a.1 g.1)

  filtered-items :
      (f : T → Bool) (i : ℕ) (m : SubQueues T)
      → AllValues Good m
      → AllValues (λ sq. class_items i (sub_remove_by_filter f sq) ≡ reject f (class_items i sq)) m
  filtered-items f i [] g = tt
  filtered-items f i ((p, sq) ∷ m) g =
      (class_items-sub_remove_by_filter f i sq g.0.0, filtered-items f i m g.1)

  -- `remove_by_filter` keeps the invariant of a queue whose sub-queues hold fewer than 2 ^ 32 items.
  pub remove_by_filter-IsValid :
      (f : T → Bool) {pq : PrioritizedQueue T}
      → AllValues Small pq.queue
      → AllValues Small pq.high_queue
      → IsValid pq
      → IsValid (remove_by_filter f pq)
  unfolding remove_by_filter
  remove_by_filter-IsValid f {pq} a b v =
      rw
        (filter_queue-keep_full f pq.total_priority pq.queue, filter_high-keep_full f pq.high_queue)
        (record {
          sorted = keep_full-SortedFrom _ 0 pq.queue v.sorted;
          sorted_high = keep_full-SortedFrom _ 0 pq.high_queue v.sorted_high;
          good = keep_full-Good _ pq.queue (filtered-IsValid f pq.queue a v.good);
          good_high =
              keep_full-Good _ pq.high_queue (filtered-IsValid f pq.high_queue b v.good_high);
          total = omega (
            arith,
            v.total,
            filter_queue-total f pq.total_priority 0 pq.queue (omega (arith, v.total)),
          );
        })

  -- After `remove_by_filter` on a valid queue, of each list the items that `f` does not take out stay, in their order.
  pub pending-remove_by_filter :
      (f : T → Bool) (l : Lane) (p k : ℕ) {pq : PrioritizedQueue T}
      → IsValid pq
      → pending l p k (remove_by_filter f pq) ≡ reject f (pending l p k pq)
  unfolding remove_by_filter reject
  pending-remove_by_filter f high p k {pq} v = rw (filter_high-keep_full f pq.high_queue) (
      items_in-keep_full _ (reject f) 0 p k pq.high_queue refl
        (filtered-items f k pq.high_queue v.good_high) v.sorted_high)
  pending-remove_by_filter f normal p k {pq} v =
      rw (filter_queue-keep_full f pq.total_priority pq.queue) (
        items_in-keep_full _ (reject f) 0 p k pq.queue refl (filtered-items f k pq.queue v.good)
          v.sorted)
