-- ===== src/PrioritizedQueue/Puts.antt =====
-- What the four ways in do to the lists of pending items.
use my_git_hub.Common.{
  ℕ, ◌%◌, ◌<◌, ◌≡◌, refl, subst, min, max, ◌&&◌, [], ◌∷◌, ◌++◌, arith, ◌==◌, if◌then◌else◌,
  Option-cases, inl, inr,
}
use my_git_hub.Common.Words.{u32_mod}
use my_git_hub.Common.OrderedMap.{find, update, update-update, find-update}
use my_git_hub.PrioritizedQueue.Defs.{
  PrioritizedQueue, SubQueues, on_queue, clamp_cost, enqueue, enqueue_front, enqueue_strict,
  enqueue_strict_front,
}
use my_git_hub.PrioritizedQueue.View.{Lane, high, normal, at_lane, items_in, pending}
use my_git_hub.PrioritizedQueue.SubQueue
use my_git_hub.PrioritizedQueue.SubQueue.{ListPairs, SubQueue, fresh, set_max_tokens}
use my_git_hub.PrioritizedQueue.SubQueue.View.{class_items, class_list-update}

module _ {ℓ} {T : Type ℓ} where
  -- the items of an entry that is changed by `g`, or made from `fresh`
  items_in-update :
      (g : SubQueue T → SubQueue T) (h : ListPairs T → ListPairs T) (p cl j k : ℕ) (m : SubQueues T)
      → ((sq : SubQueue T)
          → class_items k (g sq) ≡ (if k == cl then h (class_items cl sq) else class_items k sq))
      → items_in k (find j (update p g fresh m))
        ≡ (if j == p && k == cl then h (items_in cl (find p m)) else items_in k (find j m))
  unfolding fresh find
  items_in-update g h p cl j k m law = elim (Option-cases (find p m)) [
    | inl e ↦ ground (arith, find-update j p g fresh m, law fresh)
    | inr (sq, e) ↦ ground (arith, find-update j p g fresh m, law sq)
  ]

  class_items-enqueue :
      (cl cost k : ℕ) (x : T) (sq : SubQueue T)
      → class_items k (SubQueue.enqueue cl cost x sq)
        ≡ (if k == cl then class_items cl sq ++ (cost, x) ∷ [] else class_items k sq)
  unfolding SubQueue.enqueue
  class_items-enqueue cl cost k x sq = class_list-update k cl _ sq.q

  class_items-enqueue_front :
      (cl cost k : ℕ) (x : T) (sq : SubQueue T)
      → class_items k (SubQueue.enqueue_front cl cost x sq)
        ≡ (if k == cl then (cost, x) ∷ class_items cl sq else class_items k sq)
  unfolding SubQueue.enqueue_front
  class_items-enqueue_front cl cost k x sq = class_list-update k cl _ sq.q

  on_queue-items :
      (g : SubQueue T → SubQueue T) (h : ListPairs T → ListPairs T) (p cl j k : ℕ)
      (pq : PrioritizedQueue T)
      → ((sq : SubQueue T)
          → class_items k (g sq) ≡ (if k == cl then h (class_items cl sq) else class_items k sq))
      → items_in k (find j (on_queue p g pq).queue) ≡ (
          if j == p && k == cl
          then h (items_in cl (find p pq.queue))
          else items_in k (find j pq.queue))
  unfolding on_queue set_max_tokens
  on_queue-items g h p cl j k pq law = elim (Option-cases (find p pq.queue)) [
    | inl e ↦
        rw (e, update-update)
          (rw e at (
            items_in-update (λ v. g (set_max_tokens (pq.max_tokens_per_subqueue % u32_mod) v)) h p
              cl j k pq.queue
              (λ sq. law (set_max_tokens (pq.max_tokens_per_subqueue % u32_mod) sq))))
    | inr (sq, e) ↦ rw e (rw e at (items_in-update g h p cl j k pq.queue law))
  ]

  -- `g` puts an item into the class `cl` of the lane `l` at priority `p`, by `h` on its list.
  abbrev pub Puts :
      Lane → ℕ → ℕ → (ListPairs T → ListPairs T) → PrioritizedQueue T → PrioritizedQueue T → Type ℓ
  Puts l p cl h pq r =
      (m : Lane) (j k : ℕ)
      → pending m j k r
        ≡ (if at_lane m l && (j == p && k == cl) then h (pending l p cl pq) else pending m j k pq)

  -- `enqueue` puts an item to the end of the list of its lane, priority and class, at a cost that is clamped;
  -- no other list changes.
  pub enqueue-Puts :
      (cl p cost : ℕ) (x : T) (pq : PrioritizedQueue T)
      → Puts normal p cl (λ l. l ++ (clamp_cost pq cost, x) ∷ []) pq (enqueue cl p cost x pq)
  unfolding enqueue
  enqueue-Puts cl p cost x pq high j k = ground arith
  enqueue-Puts cl p cost x pq normal j k =
      on_queue-items _ (λ l. l ++ (clamp_cost pq cost, x) ∷ []) p cl j k pq
        (class_items-enqueue cl (clamp_cost pq cost) k x)

  -- `enqueue_front` puts an item to the front of the list of its lane, priority and class, at a cost
  -- that is clamped; no other list changes.
  pub enqueue_front-Puts :
      (cl p cost : ℕ) (x : T) (pq : PrioritizedQueue T)
      → Puts normal p cl (λ l. (clamp_cost pq cost, x) ∷ l) pq (enqueue_front cl p cost x pq)
  unfolding enqueue_front
  enqueue_front-Puts cl p cost x pq high j k = ground arith
  enqueue_front-Puts cl p cost x pq normal j k =
      on_queue-items _ (λ l. (clamp_cost pq cost, x) ∷ l) p cl j k pq
        (class_items-enqueue_front cl (clamp_cost pq cost) k x)

  -- `enqueue_strict` puts a strict item to the end of its list in the high lane, at cost 0; no other
  -- list changes.
  pub enqueue_strict-Puts :
      (cl p : ℕ) (x : T) (pq : PrioritizedQueue T)
      → Puts high p cl (λ l. l ++ (0, x) ∷ []) pq (enqueue_strict cl p x pq)
  unfolding enqueue_strict
  enqueue_strict-Puts cl p x pq high j k =
      items_in-update _ (λ l. l ++ (0, x) ∷ []) p cl j k pq.high_queue
        (class_items-enqueue cl 0 k x)
  enqueue_strict-Puts cl p x pq normal j k = refl

  -- `enqueue_strict_front` puts a strict item to the front of its list in the high lane, at cost 0; no
  -- other list changes.
  pub enqueue_strict_front-Puts :
      (cl p : ℕ) (x : T) (pq : PrioritizedQueue T)
      → Puts high p cl (λ l. (0, x) ∷ l) pq (enqueue_strict_front cl p x pq)
  unfolding enqueue_strict_front
  enqueue_strict_front-Puts cl p x pq high j k =
      items_in-update _ (λ l. (0, x) ∷ l) p cl j k pq.high_queue
        (class_items-enqueue_front cl 0 k x)
  enqueue_strict_front-Puts cl p x pq normal j k = refl

  -- A cost that is raised to the least one, and then cut to the tokens that a sub-queue may have.
  abbrev pub within_bounds : PrioritizedQueue T → ℕ → ℕ
  within_bounds pq cost = min pq.max_tokens_per_subqueue (max pq.min_cost cost)

  clamp_cost-within_bounds :
      (cost : ℕ) (pq : PrioritizedQueue T)
      → pq.max_tokens_per_subqueue < u32_mod
      → pq.min_cost < u32_mod
      → clamp_cost pq cost ≡ within_bounds pq cost
  unfolding clamp_cost
  clamp_cost-within_bounds cost pq h k = ground arith

  -- The four ways in put an item into the list of its lane, priority and class, and no other list changes:
  -- `enqueue` at its end and `enqueue_front` at its front, at a cost that is raised to `_min_cost` and
  -- then cut to `_max_tokens_per_subqueue`, where these are `unsigned`s as the constructor takes them,
  -- `enqueue_strict` and `enqueue_strict_front` so in the high lane, at cost 0.
  pub ways_in-Puts :
      (cl p cost : ℕ) (x : T) (pq : PrioritizedQueue T)
      → pq.max_tokens_per_subqueue < u32_mod
      → pq.min_cost < u32_mod
      → Puts normal p cl (λ l. l ++ (within_bounds pq cost, x) ∷ []) pq (enqueue cl p cost x pq)
        × Puts normal p cl (λ l. (within_bounds pq cost, x) ∷ l) pq (enqueue_front cl p cost x pq)
        × Puts high p cl (λ l. l ++ (0, x) ∷ []) pq (enqueue_strict cl p x pq)
        × Puts high p cl (λ l. (0, x) ∷ l) pq (enqueue_strict_front cl p x pq)
  ways_in-Puts cl p cost x pq h k =
      let clamped = clamp_cost-within_bounds cost pq h k in
      (
        subst (λ c. Puts normal p cl (λ l. l ++ (c, x) ∷ []) pq (enqueue cl p cost x pq)) clamped
            (enqueue-Puts cl p cost x pq),
        subst (λ c. Puts normal p cl (λ l. (c, x) ∷ l) pq (enqueue_front cl p cost x pq)) clamped
            (enqueue_front-Puts cl p cost x pq),
        enqueue_strict-Puts cl p x pq,
        enqueue_strict_front-Puts cl p x pq,
      )
