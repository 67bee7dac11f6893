-- ===== src/PrioritizedQueue/History.antt =====
-- The queue as a state machine: each method is a step.
use my_git_hub.Common.{ℕ, ◌≡◌, sym, subst, ap, ◌∙◌, Bool, false, Option, none, some, List}
use my_git_hub.Common.OrderedMap.{AllValues}
use my_git_hub.PrioritizedQueue.Defs.{
  PrioritizedQueue, init, enqueue, enqueue_front, enqueue_strict, enqueue_strict_front, is_idle,
  dequeue, remove_by_filter, remove_by_class,
}
use my_git_hub.PrioritizedQueue.View.{IsValid, init-IsValid}
use my_git_hub.PrioritizedQueue.Enqueue.{
  enqueue-IsValid_pq, enqueue_front-IsValid_pq, enqueue_strict-IsValid,
  enqueue_strict_front-IsValid,
}
use my_git_hub.PrioritizedQueue.Policy.{dequeue-Serves}
use my_git_hub.PrioritizedQueue.Removal.{Small, remove_by_filter-IsValid}
use my_git_hub.PrioritizedQueue.ByClass.{remove_by_class-IsValid}

module _ {ℓ} {T : Type ℓ} where
  pub data Step : PrioritizedQueue T → PrioritizedQueue T → Type ℓ where
    behind : (cl p cost : ℕ) (x : T) {pq : PrioritizedQueue T} → Step pq (enqueue cl p cost x pq)
    before :
        (cl p cost : ℕ) (x : T) {pq : PrioritizedQueue T} → Step pq (enqueue_front cl p cost x pq)
    strict : (cl p : ℕ) (x : T) {pq : PrioritizedQueue T} → Step pq (enqueue_strict cl p x pq)
    strict_front :
        (cl p : ℕ) (x : T) {pq : PrioritizedQueue T} → Step pq (enqueue_strict_front cl p x pq)
    served :
        (x : T) {pq r : PrioritizedQueue T}
        → is_idle pq ≡ false
        → dequeue pq ≡ some (x, r)
        → Step pq r
    filtered :
        (f : T → Bool) {pq : PrioritizedQueue T}
        → AllValues Small pq.queue
        → AllValues Small pq.high_queue
        → Step pq (remove_by_filter f pq)
    class_removed :
        (k : ℕ) (out : Option (List T)) {pq : PrioritizedQueue T}
        → Step pq (remove_by_class k out pq).0

  -- What a new queue can become.
  pub data Reachable : PrioritizedQueue T → Type ℓ where
    new : (max_per min_c : ℕ) → Reachable (init max_per min_c)
    and_then : {pq r : PrioritizedQueue T} → Reachable pq → Step pq r → Reachable r

  left : PrioritizedQueue T → Option (T × PrioritizedQueue T) → PrioritizedQueue T
  left d none = d
  left d (some q) = q.1

  Step-IsValid : {pq r : PrioritizedQueue T} → Step pq r → IsValid pq → IsValid r
  unfolding left
  Step-IsValid (behind cl p cost x) v = enqueue-IsValid_pq cl p cost x v
  Step-IsValid (before cl p cost x) v = enqueue_front-IsValid_pq cl p cost x v
  Step-IsValid (strict cl p x) v = enqueue_strict-IsValid cl p x v
  Step-IsValid (strict_front cl p x) v = enqueue_strict_front-IsValid cl p x v
  Step-IsValid (served x {r = r} some_items e) v =
      let (l, p, k, c, y, r', s) = dequeue-Serves v some_items in
      subst IsValid (ap (left r) (sym s.result ∙ e)) s.takes.valid
  Step-IsValid (filtered f a b) v = remove_by_filter-IsValid f a b v
  Step-IsValid (class_removed k out) v = remove_by_class-IsValid k out v

  -- A queue that a new one becomes by calls of its methods, `dequeue` when it is not empty and
  -- `remove_by_filter` when its sub-queues hold fewer than 2 ^ 32 items, is valid: its maps are sorted, no
  -- sub-queue and no class is empty, the cursors stand at a class, the sizes count the items, the tokens
  -- are within their limit, and the total is the sum of the priorities.
  pub Reachable-IsValid : {pq : PrioritizedQueue T} → Reachable pq → IsValid pq
  Reachable-IsValid (new max_per min_c) = init-IsValid max_per min_c
  Reachable-IsValid (and_then h s) = Step-IsValid s (Reachable-IsValid h)
