-- ===== src/PrioritizedQueue/Enqueue.antt =====
-- The four ways in keep the invariant.
use my_git_hub.Common.{ℕ, ◌%◌, refl, [], arith, Option-cases, inl, inr}
use my_git_hub.Common.Words.{u32_mod}
use my_git_hub.Common.OrderedMap.{
  find, update-SortedFrom, update-AllValues, update-AllValues_new, update-update, is_empty-update,
  key_sum-update,
}
use my_git_hub.PrioritizedQueue.Defs.{
  PrioritizedQueue, on_queue, clamp_cost, enqueue, enqueue_front, enqueue_strict,
  enqueue_strict_front,
}
use my_git_hub.PrioritizedQueue.View.{Good, IsValid}
use my_git_hub.PrioritizedQueue.SubQueue
use my_git_hub.PrioritizedQueue.SubQueue.{ListPairs, SubQueue, fresh, set_max_tokens, empty}
use my_git_hub.PrioritizedQueue.SubQueue.Invariant
use my_git_hub.PrioritizedQueue.SubQueue.Invariant.{
  fresh-IsValid, enqueue-IsValid, enqueue_front-IsValid,
}

module _ {ℓ} {T : Type ℓ} where
  enqueue-Good :
      (cl cost : ℕ) (x : T) {sq : SubQueue T}
      → Invariant.IsValid sq
      → Good (SubQueue.enqueue cl cost x sq)
  unfolding empty SubQueue.enqueue
  enqueue-Good cl cost x {sq} v = (enqueue-IsValid cl cost x v, is_empty-update cl _ [] sq.q)

  enqueue_front-Good :
      (cl cost : ℕ) (x : T) {sq : SubQueue T}
      → Invariant.IsValid sq
      → Good (SubQueue.enqueue_front cl cost x sq)
  unfolding empty SubQueue.enqueue_front
  enqueue_front-Good cl cost x {sq} v =
      (enqueue_front-IsValid cl cost x v, is_empty-update cl _ [] sq.q)

  new-IsValid : (mt : ℕ) → Invariant.IsValid (set_max_tokens {T = T} mt fresh)
  unfolding set_max_tokens fresh
  new-IsValid mt = record {
    sorted = tt;
    filled = tt;
    cursor = refl;
    counted = omega arith;
    budget = omega arith;
  }

  on_queue-IsValid :
      (g : SubQueue T → SubQueue T) (p : ℕ) {pq : PrioritizedQueue T}
      → ((sq : SubQueue T) → Invariant.IsValid sq → Good (g sq))
      → IsValid pq
      → IsValid (on_queue p g pq)
  unfolding on_queue
  on_queue-IsValid g p {pq} keep v = elim (Option-cases (find p pq.queue)) [
    | inl e ↦
        rw (e, update-update)
          (record {
            sorted = update-SortedFrom 0 p _ fresh pq.queue (omega arith) v.sorted;
            sorted_high = v.sorted_high;
            good = update-AllValues_new Good p _ fresh pq.queue e (keep _ (new-IsValid _)) v.good;
            good_high = v.good_high;
            total = ground (
              arith,
              v.total,
              key_sum-update p (λ sq. g (set_max_tokens (pq.max_tokens_per_subqueue % u32_mod) sq))
                  fresh pq.queue,
            );
          })
    | inr (sq, e) ↦ rw e (record {
      sorted = update-SortedFrom 0 p g fresh pq.queue (omega arith) v.sorted;
      sorted_high = v.sorted_high;
      good =
          update-AllValues Good p g fresh pq.queue (keep fresh fresh-IsValid) (λ w h. keep w h.0)
            v.good;
      good_high = v.good_high;
      total = ground (arith, v.total, key_sum-update p g fresh pq.queue);
    })
  ]

  -- `enqueue` keeps the invariant of the queue, whatever the class, the priority and the cost.
  pub enqueue-IsValid_pq :
      (cl p cost : ℕ) (x : T) {pq : PrioritizedQueue T}
      → IsValid pq
      → IsValid (enqueue cl p cost x pq)
  unfolding enqueue
  enqueue-IsValid_pq cl p cost x {pq} v =
      on_queue-IsValid _ p (λ sq h. enqueue-Good cl (clamp_cost pq cost) x h) v

  -- So does `enqueue_front`.
  pub enqueue_front-IsValid_pq :
      (cl p cost : ℕ) (x : T) {pq : PrioritizedQueue T}
      → IsValid pq
      → IsValid (enqueue_front cl p cost x pq)
  unfolding enqueue_front
  enqueue_front-IsValid_pq cl p cost x {pq} v =
      on_queue-IsValid _ p (λ sq h. enqueue_front-Good cl (clamp_cost pq cost) x h) v

  -- `enqueue_strict` keeps the invariant of the queue.
  pub enqueue_strict-IsValid :
      (cl p : ℕ) (x : T) {pq : PrioritizedQueue T} → IsValid pq → IsValid (enqueue_strict cl p x pq)
  unfolding enqueue_strict
  enqueue_strict-IsValid cl p x {pq} v = record {
    sorted = v.sorted;
    sorted_high = update-SortedFrom 0 p _ fresh pq.high_queue (omega arith) v.sorted_high;
    good = v.good;
    good_high =
        update-AllValues Good p _ fresh pq.high_queue (enqueue-Good cl 0 x fresh-IsValid)
          (λ w h. enqueue-Good cl 0 x h.0) v.good_high;
    total = v.total;
  }

  -- So does `enqueue_strict_front`.
  pub enqueue_strict_front-IsValid :
      (cl p : ℕ) (x : T) {pq : PrioritizedQueue T}
      → IsValid pq
      → IsValid (enqueue_strict_front cl p x pq)
  unfolding enqueue_strict_front
  enqueue_strict_front-IsValid cl p x {pq} v = record {
    sorted = v.sorted;
    sorted_high = update-SortedFrom 0 p _ fresh pq.high_queue (omega arith) v.sorted_high;
    good = v.good;
    good_high =
        update-AllValues Good p _ fresh pq.high_queue (enqueue_front-Good cl 0 x fresh-IsValid)
          (λ w h. enqueue_front-Good cl 0 x h.0) v.good_high;
    total = v.total;
  }
