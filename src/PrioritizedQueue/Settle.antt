-- ===== src/PrioritizedQueue/Settle.antt =====
-- A sub-queue put back after a `pop_front`, and the tokens shared out.
use my_git_hub.Common.{
  ℕ, ◌%◌, ◌≡◌, true, [], arith, ◌==◌, if◌then◌else◌, is_some, Bool-cases, inl, inr,
}
use my_git_hub.Common.Words.{u64_mod}
use my_git_hub.Common.OrderedMap.{
  find, update, erase, IsSorted, AllValues, key_sum, find-update, find-erase, find-map_values,
  update-SortedFrom, erase-SortedFrom, map_values-SortedFrom, update-AllValues, erase-AllValues,
  map_values-AllValues, key_sum-update, key_sum-erase, key_sum-map_values,
}
use my_git_hub.PrioritizedQueue.Defs.{
  PrioritizedQueue, SubQueues, put_back, distribute_tokens, share,
}
use my_git_hub.PrioritizedQueue.View.{Lane, high, normal, items_in, pending, Good, IsValid}
use my_git_hub.PrioritizedQueue.SubQueue.{SubQueue, fresh, empty, put_tokens}
use my_git_hub.PrioritizedQueue.SubQueue.View.{class_items}
use my_git_hub.PrioritizedQueue.SubQueue.Invariant
use my_git_hub.PrioritizedQueue.SubQueue.Invariant.{put_tokens-IsValid}

module _ {ℓ} {T : Type ℓ} where
  abbrev pub settle : ℕ → SubQueue T → SubQueues T → SubQueues T
  settle p sq m = if empty sq then erase p m else update p (λ _. sq) fresh m

  pub class_items-empty : (k : ℕ) (sq : SubQueue T) → empty sq ≡ true → class_items k sq ≡ []
  unfolding empty find
  class_items-empty k sq h = ground arith

  pub items_in-settle :
      (p j k : ℕ) (sq : SubQueue T) (m : SubQueues T)
      → IsSorted m
      → items_in k (find j (settle p sq m))
        ≡ (if j == p then class_items k sq else items_in k (find j m))
  items_in-settle p j k sq m s = elim (Bool-cases (empty sq)) [
    | inl e ↦ rw e (ground (arith, find-erase 0 j p m s, class_items-empty k sq e))
    | inr e ↦ rw e (ground (arith, find-update j p (λ _. sq) fresh m))
  ]

  pub settle-IsSorted :
      (p : ℕ) (sq : SubQueue T) (m : SubQueues T) → IsSorted m → IsSorted (settle p sq m)
  settle-IsSorted p sq m s = elim (Bool-cases (empty sq)) [
    | inl e ↦ rw e (erase-SortedFrom 0 p m s)
    | inr e ↦ rw e (update-SortedFrom 0 p _ fresh m (omega arith) s)
  ]

  pub settle-Good :
      (p : ℕ) (sq : SubQueue T) (m : SubQueues T)
      → Invariant.IsValid sq
      → AllValues Good m
      → AllValues Good (settle p sq m)
  settle-Good p sq m v a = elim (Bool-cases (empty sq)) [
    | inl e ↦ rw e (erase-AllValues Good p m a)
    | inr e ↦ rw e (update-AllValues Good p _ fresh m (v, e) (λ _ _. (v, e)) a)
  ]

  pub put_back-settle :
      (p : ℕ) (sq : SubQueue T) (pq : PrioritizedQueue T)
      → (put_back p sq pq).queue ≡ settle p sq pq.queue
  unfolding put_back
  put_back-settle p sq pq = ground arith

  pub put_back-high :
      (p : ℕ) (sq : SubQueue T) (pq : PrioritizedQueue T)
      → (put_back p sq pq).high_queue ≡ pq.high_queue
  unfolding put_back
  put_back-high p sq pq = ground arith

  put_back-total :
      (p : ℕ) (sq : SubQueue T) (pq : PrioritizedQueue T)
      → is_some (find p pq.queue) ≡ true
      → pq.total_priority ≡ key_sum pq.queue % u64_mod
      → (put_back p sq pq).total_priority ≡ key_sum (settle p sq pq.queue) % u64_mod
  unfolding put_back
  put_back-total p sq pq h t = elim (Bool-cases (empty sq)) [
    | inl e ↦ rw e (ground (arith, key_sum-erase p pq.queue))
    | inr e ↦ rw e (ground (arith, key_sum-update p (λ _. sq) fresh pq.queue))
  ]

  pub put_back-IsValid :
      (p : ℕ) (sq : SubQueue T) {pq : PrioritizedQueue T}
      → is_some (find p pq.queue) ≡ true
      → Invariant.IsValid sq
      → IsValid pq
      → IsValid (put_back p sq pq)
  put_back-IsValid p sq {pq} h w v = record {
    sorted = rw (put_back-settle p sq pq) (settle-IsSorted p sq pq.queue v.sorted);
    sorted_high = rw (put_back-high p sq pq) v.sorted_high;
    good = rw (put_back-settle p sq pq) (settle-Good p sq pq.queue w v.good);
    good_high = rw (put_back-high p sq pq) v.good_high;
    total = rw (put_back-settle p sq pq) (put_back-total p sq pq h v.total);
  }

  put_tokens-Good : (t : ℕ) {sq : SubQueue T} → Good sq → Good (put_tokens t sq)
  unfolding empty put_tokens
  put_tokens-Good t g = (put_tokens-IsValid t g.0, g.1)

  pub distribute_tokens-IsValid :
      (cost : ℕ) {pq : PrioritizedQueue T} → IsValid pq → IsValid (distribute_tokens cost pq)
  unfolding distribute_tokens
  distribute_tokens-IsValid cost {pq} v = elim (Bool-cases (pq.total_priority == 0)) [
    | inl e ↦ rw e v
    | inr e ↦ rw e (record {
      sorted = map_values-SortedFrom _ 0 pq.queue v.sorted;
      sorted_high = v.sorted_high;
      good = map_values-AllValues Good _ pq.queue (λ p sq. put_tokens-Good _) v.good;
      good_high = v.good_high;
      total = rw key_sum-map_values v.total;
    })
  ]

  -- Shared tokens move no item.
  pub pending-distribute_tokens :
      (l : Lane) (j k cost : ℕ) (pq : PrioritizedQueue T)
      → pending l j k (distribute_tokens cost pq) ≡ pending l j k pq
  unfolding distribute_tokens put_tokens
  pending-distribute_tokens high j k cost pq = ground arith
  pending-distribute_tokens normal j k cost pq =
      ground
        (arith, find-map_values (λ p sq. put_tokens (share pq.total_priority cost p) sq) j pq.queue)
