-- ===== src/PrioritizedQueue/Dequeue.antt =====
-- `dequeue`: from a queue that is not empty one item goes out, the first of its list.
use my_git_hub.Common.{
  ℕ, ◌≡◌, refl, ap, ◌∙◌, false, ◌&&◌, some, ◌∷◌, arith, ◌==◌, if◌then◌else◌, Bool-cases, inl, inr,
}
use my_git_hub.Common.OrderedMap.{find, IsSorted, AllValues-find}
use my_git_hub.PrioritizedQueue.Defs.{PrioritizedQueue, SubQueues, put_back, distribute_tokens}
use my_git_hub.PrioritizedQueue.View.{Lane, high, normal, at_lane, items_in, pending, Good, IsValid}
use my_git_hub.PrioritizedQueue.Settle.{
  settle, items_in-settle, settle-IsSorted, settle-Good, put_back-settle, put_back-high,
  put_back-IsValid, distribute_tokens-IsValid, pending-distribute_tokens,
}
use my_git_hub.PrioritizedQueue.SubQueue.{SubQueue}
use my_git_hub.PrioritizedQueue.SubQueue.View.{class_items}
use my_git_hub.PrioritizedQueue.SubQueue.Invariant
use my_git_hub.PrioritizedQueue.SubQueue.Invariant.{take_tokens-IsValid, pop_front-IsValid}
use my_git_hub.PrioritizedQueue.SubQueue.Pop.{Pops}

module _ {ℓ} {T : Type ℓ} where
  -- The item `x`, with its cost `c`, leaves the front of the list of the lane `l`, the priority `p`
  -- and the class `k`; no other list changes.
  pub record Takes (l : Lane) (p k c : ℕ) (x : T) (pq r : PrioritizedQueue T) : Type ℓ where
    pub taken : pending l p k pq ≡ (c, x) ∷ pending l p k r
    pub others :
        (m : Lane) (j i : ℕ)
        → (at_lane m l && (j == p && i == k)) ≡ false
        → pending m j i r ≡ pending m j i pq
    pub valid : IsValid r

  -- The lists of a map after the sub-queue at `p` has popped; `sq` has the lists of the one there.
  popped_items :
      (p k j i : ℕ) (e : ℕ × T) (sq₀ sq sq' : SubQueue T) (m : SubQueues T)
      → IsSorted m
      → find p m ≡ some sq₀
      → class_items i sq ≡ class_items i sq₀
      → Pops sq k e sq'
      → items_in i (find j (settle p sq' m))
        ≡ (if j == p && i == k then class_items k sq' else items_in i (find j m))
  popped_items p k j i e sq₀ sq sq' m s f same pops = elim (Bool-cases (i == k)) [
    | inl y ↦ ground (arith, items_in-settle p j i sq' m s, y)
    | inr n ↦ ground (arith, items_in-settle p j i sq' m s, n, pops.others i n, f, same)
  ]

  Pops-IsValid :
      {k : ℕ} {e : ℕ × T} {sq sq' : SubQueue T}
      → Invariant.IsValid sq
      → Pops sq k e sq'
      → Invariant.IsValid sq'
  Pops-IsValid v pops = rw pops.popped at (pop_front-IsValid v)

  pub high-Takes :
      (p k : ℕ) (e : ℕ × T) (sq sq' : SubQueue T) {pq : PrioritizedQueue T}
      → IsValid pq
      → find p pq.high_queue ≡ some sq
      → Pops sq k e sq'
      → Takes high p k e.0 e.1 pq (record pq { high_queue = settle p sq' pq.high_queue })
  high-Takes p k e sq sq' {pq} v f pops = record {
    taken = ground (arith, at p k, pops.taken);
    others = other;
    valid = record {
      sorted = v.sorted;
      sorted_high = settle-IsSorted p sq' pq.high_queue v.sorted_high;
      good = v.good;
      good_high =
          settle-Good p sq' pq.high_queue
            (Pops-IsValid (AllValues-find Good p pq.high_queue v.good_high f).0 pops) v.good_high;
      total = v.total;
    };
  }
    where
      at :
          (j i : ℕ)
          → items_in i (find j (settle p sq' pq.high_queue))
            ≡ (if j == p && i == k then class_items k sq' else items_in i (find j pq.high_queue))
      at j i = popped_items p k j i e sq sq sq' pq.high_queue v.sorted_high f refl pops

      other :
          (m : Lane) (j i : ℕ)
          → (at_lane m high && (j == p && i == k)) ≡ false
          → pending m j i (record pq { high_queue = settle p sq' pq.high_queue }) ≡ pending m j i pq
      other high j i h = ground (arith, at j i)
      other normal j i h = refl

  pub normal-Takes :
      (p k : ℕ) (e : ℕ × T) (sq₀ sq sq' : SubQueue T) {pq : PrioritizedQueue T}
      → IsValid pq
      → find p pq.queue ≡ some sq₀
      → Invariant.IsValid sq
      → ((i : ℕ) → class_items i sq ≡ class_items i sq₀)
      → Pops sq k e sq'
      → Takes normal p k e.0 e.1 pq (distribute_tokens e.0 (put_back p sq' pq))
  normal-Takes p k e sq₀ sq sq' {pq} v f w same pops = record {
    taken = ground (arith, at p k, pops.taken, same k);
    others = other;
    valid =
        distribute_tokens-IsValid e.0 (put_back-IsValid p sq' (rw f refl) (Pops-IsValid w pops) v);
  }
    where
      out : PrioritizedQueue T
      out = distribute_tokens e.0 (put_back p sq' pq)

      at :
          (j i : ℕ)
          → pending normal j i out
            ≡ (if j == p && i == k then class_items k sq' else items_in i (find j pq.queue))
      at j i =
          pending-distribute_tokens normal j i e.0 (put_back p sq' pq)
          ∙ rw (put_back-settle p sq' pq)
              (popped_items p k j i e sq₀ sq sq' pq.queue v.sorted f (same i) pops)

      other :
          (m : Lane) (j i : ℕ)
          → (at_lane m normal && (j == p && i == k)) ≡ false
          → pending m j i out ≡ pending m j i pq
      other high j i h =
          pending-distribute_tokens high j i e.0 (put_back p sq' pq)
          ∙ ap (λ m. items_in i (find j m)) (put_back-high p sq' pq)
      other normal j i h = ground (arith, at j i)
