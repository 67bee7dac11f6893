-- ===== src/PrioritizedQueue/Policy.antt =====
-- Which sub-queue `dequeue` serves, and that it always serves one.
use my_git_hub.Common.{
  subst, get_or, ℕ, suc, ◌<◌, ◌≡◌, refl, sym, ap, ◌∙◌, Bool, true, false, Option, none, some, [],
  ◌∷◌, arith, ltb, is_empty, Bool-cases, ◌⊎◌, inl, inr,
}
use my_git_hub.Common.OrderedMap.{
  find, find-cons, last_entry, SortedFrom, AllValues, AllValues-find, last_entry_lem,
}
use my_git_hub.PrioritizedQueue.Defs.{
  PrioritizedQueue, SubQueues, is_idle, pick, put_back, distribute_tokens, dequeue, dequeue_high,
  dequeue_paid, dequeue_last, dequeue_normal,
}
use my_git_hub.PrioritizedQueue.View.{Lane, high, normal, Good, IsValid}
use my_git_hub.PrioritizedQueue.Dequeue.{Takes, high-Takes, normal-Takes}
use my_git_hub.PrioritizedQueue.Settle.{settle}
use my_git_hub.PrioritizedQueue.SubQueue.{SubQueue, empty, front, take_tokens}
use my_git_hub.PrioritizedQueue.SubQueue.View.{class_items}
use my_git_hub.PrioritizedQueue.SubQueue.Invariant.{take_tokens-IsValid}
use my_git_hub.PrioritizedQueue.SubQueue.Pop.{Pops, pop_front-Pops}

module _ {ℓ} {T : Type ℓ} where
  -- The front item of a sub-queue costs less than the tokens that it has.
  abbrev pub costs_less : ℕ → Option (ℕ × T) → Bool
  costs_less tokens none = false
  costs_less tokens (some e) = ltb e.0 tokens

  abbrev pub affords : SubQueue T → Bool
  affords sq = costs_less sq.tokens (front sq)

  -- Strict items go first, those of the greatest priority. Without any, the least priority that can
  -- pay is served, and where none can, the greatest.
  abbrev pub Chosen : Lane → ℕ → PrioritizedQueue T → Type ℓ
  Chosen high p pq =
      (is_empty pq.high_queue ≡ false) × ((j : ℕ) → p < j → find j pq.high_queue ≡ none)
  Chosen normal p pq =
      (is_empty pq.high_queue ≡ true)
      × (((sq : SubQueue T) × (find p pq.queue ≡ some sq)
            × (affords sq ≡ true)
            × ((j : ℕ) (sq' : SubQueue T)
                → j < p
                → find j pq.queue ≡ some sq'
                → affords sq' ≡ false))
          ⊎ (((j : ℕ) → p < j → find j pq.queue ≡ none)
              × ((j : ℕ) (sq' : SubQueue T) → find j pq.queue ≡ some sq' → affords sq' ≡ false)))

  -- What `pick` found in a map.
  abbrev Picked : SubQueues T → Type ℓ
  Picked m =
      ((pick m ≡ some none)
        × ((j : ℕ) (sq' : SubQueue T) → find j m ≡ some sq' → affords sq' ≡ false))
      ⊎ ((p : ℕ) × (sq : SubQueue T) × (pick m ≡ some (some (p, sq)))
          × (find p m ≡ some sq)
          × (affords sq ≡ true)
          × ((j : ℕ) (sq' : SubQueue T) → j < p → find j m ≡ some sq' → affords sq' ≡ false))

  pick-cons :
      (p : ℕ) (e : ℕ × T) (sq : SubQueue T) (m : SubQueues T)
      → SortedFrom (suc p) m
      → front sq ≡ some e
      → ltb e.0 sq.tokens ≡ false
      → Picked m
      → Picked ((p, sq) ∷ m)
  unfolding pick find
  pick-cons p e sq m s f n (inl (none_picked, poor)) =
      inl (rw (f, n) none_picked, λ j sq' h. ground (arith, poor j sq', f))
  pick-cons p e sq m s f n (inr (i, sq₁, picked, there, rich, first)) = inr (
    i,
    sq₁,
    rw (f, n) picked,
    find-cons i p sq m s there,
    rich,
    λ j sq' lt h. ground (arith, first j sq' lt, f),
  )

  pick-Picked : (b : ℕ) (m : SubQueues T) → SortedFrom b m → AllValues Good m → Picked m
  unfolding pick find
  pick-Picked b [] s g = inl (refl, λ j sq' e. cc)
  pick-Picked b ((p, sq) ∷ m) s g =
      let (k, e, r, pops) = pop_front-Pops g.0.0 g.0.1 in
      elim (Bool-cases (ltb e.0 sq.tokens)) [
        | inl y ↦ inr (
          p,
          sq,
          rw (pops.fronted, y),
          ground arith,
          rw pops.fronted y,
          λ j sq' h f. ground arith,
        )
        | inr n ↦ pick-cons p e sq m s.1 pops.fronted n (pick-Picked (suc p) m s.1 g.1)
      ]

  -- `dequeue` hands out `x`, taken from the lane `l`, the priority `p` and the class `k`.
  pub record Serves (l : Lane) (p k c : ℕ) (x : T) (pq r : PrioritizedQueue T) : Type ℓ where
    pub result : dequeue pq ≡ some (x, r)
    pub chosen : Chosen l p pq
    pub takes : Takes l p k c x pq r

  abbrev pub SomeServed : PrioritizedQueue T → Type ℓ
  SomeServed pq =
      (l : Lane) × (p : ℕ) × (k : ℕ) × (c : ℕ) × (x : T) × (r : PrioritizedQueue T) × Serves l p k c
        x pq r

  serve_high :
      (e : ℕ × SubQueue T) (m : SubQueues T) {pq : PrioritizedQueue T}
      → IsValid pq
      → pq.high_queue ≡ e ∷ m
      → SomeServed pq
  unfolding dequeue dequeue_high
  serve_high e m {pq} v h =
      let (p, sq, last, there, top, _) = last_entry_lem 0 e m (rw h at v.sorted_high) in
      let good = AllValues-find Good p pq.high_queue v.good_high (rw h there) in
      let (k, x, sq', pops) = pop_front-Pops good.0 good.1 in
      (
        high,
        p,
        k,
        x.0,
        x.1,
        record pq { high_queue = settle p sq' pq.high_queue },
        record {
          result = rw (h, last, pops.fronted, pops.popped) refl;
          chosen = (rw h refl, λ j lt. rw h (top j lt));
          takes = high-Takes p k x sq sq' v (rw h there) pops;
        },
      )

  full : (t : ℕ) (sq : SubQueue T) → empty sq ≡ false → empty (take_tokens t sq) ≡ false
  unfolding empty take_tokens
  full t sq h = h

  front-take_tokens : (t : ℕ) (sq : SubQueue T) → front (take_tokens t sq) ≡ front sq
  unfolding front take_tokens
  front-take_tokens t sq = refl

  class_items-take_tokens :
      (i t : ℕ) (sq : SubQueue T) → class_items i (take_tokens t sq) ≡ class_items i sq
  unfolding take_tokens
  class_items-take_tokens i t sq = refl

  serve_paid :
      (p : ℕ) (sq : SubQueue T) {pq : PrioritizedQueue T}
      → IsValid pq
      → is_empty pq.high_queue ≡ true
      → pick pq.queue ≡ some (some (p, sq))
      → find p pq.queue ≡ some sq
      → affords sq ≡ true
      → ((j : ℕ) (sq' : SubQueue T) → j < p → find j pq.queue ≡ some sq' → affords sq' ≡ false)
      → SomeServed pq
  unfolding dequeue dequeue_normal dequeue_paid
  serve_paid p sq {pq} v h picked there rich first =
      let good = AllValues-find Good p pq.queue v.good there in
      let (_, e, _, before) = pop_front-Pops good.0 good.1 in
      let valid = take_tokens-IsValid e.0 good.0 in
      let (k, x, sq', pops) = pop_front-Pops {sq = take_tokens e.0 sq} valid (full e.0 sq good.1) in
      let same : x ≡ e =
        ap (λ o. get_or o e) (sym pops.fronted ∙ front-take_tokens e.0 sq ∙ before.fronted) in
      (
        normal,
        p,
        k,
        e.0,
        e.1,
        distribute_tokens e.0 (put_back p sq' pq),
        record {
          result = rw (h, picked, before.fronted, pops.popped) refl;
          chosen = (h, inl (sq, there, rich, first));
          takes =
              normal-Takes p k e sq (take_tokens e.0 sq) sq' v there valid
                (λ i. class_items-take_tokens i e.0 sq)
                (subst (λ y. Pops (take_tokens e.0 sq) k y sq') same pops);
        },
      )

  serve_last :
      (e : ℕ × SubQueue T) (m : SubQueues T) {pq : PrioritizedQueue T}
      → IsValid pq
      → is_empty pq.high_queue ≡ true
      → pick pq.queue ≡ some none
      → ((j : ℕ) (sq' : SubQueue T) → find j pq.queue ≡ some sq' → affords sq' ≡ false)
      → pq.queue ≡ e ∷ m
      → SomeServed pq
  unfolding dequeue dequeue_normal dequeue_last
  serve_last e m {pq} v h picked poor q =
      let (p, sq, last, there, top, _) = last_entry_lem 0 e m (rw q at v.sorted) in
      let found : find p pq.queue ≡ some sq = rw q there in
      let ends : last_entry pq.queue ≡ some (p, sq) = rw q last in
      let good = AllValues-find Good p pq.queue v.good found in
      let (k, x, sq', pops) = pop_front-Pops good.0 good.1 in
      (
        normal,
        p,
        k,
        x.0,
        x.1,
        distribute_tokens x.0 (put_back p sq' pq),
        record {
          result = rw (h, picked, ends, pops.fronted, pops.popped) refl;
          chosen = (h, inr (λ j lt. rw q (top j lt), poor));
          takes = normal-Takes p k x sq sq sq' v found good.0 (λ i. refl) pops;
        },
      )

  serve_normal :
      {pq : PrioritizedQueue T} (m : SubQueues T)
      → IsValid pq
      → is_empty pq.high_queue ≡ true
      → is_empty pq.queue ≡ false
      → pq.queue ≡ m
      → Picked pq.queue
      → SomeServed pq
  serve_normal m v h n q (inr (p, sq, picked, there, rich, first)) =
      serve_paid p sq v h picked there rich first
  serve_normal [] v h n q (inl (picked, poor)) = absurd (ground arith)
  serve_normal (e ∷ m) v h n q (inl (picked, poor)) = serve_last e m v h picked poor q

  -- From a valid queue that is not empty `dequeue` returns an item: the first of its list, chosen by
  -- the policy, and it leaves a valid queue with all other lists as they were.
  pub dequeue-Serves : {pq : PrioritizedQueue T} → IsValid pq → is_idle pq ≡ false → SomeServed pq
  unfolding is_idle
  dequeue-Serves {pq} v h = go pq.high_queue refl
    where
      go : (m : SubQueues T) → pq.high_queue ≡ m → SomeServed pq
      go [] e =
          serve_normal pq.queue v (rw e refl) (ground arith) refl
            (pick-Picked 0 pq.queue v.sorted v.good)
      go (x ∷ m) e = serve_high x m v e
