-- ===== src/PrioritizedQueue/Defs.antt =====
-- The state of `PrioritizedQueue` and its operations. `_total_priority` is the bit pattern of an
-- `int64_t`; the two limits come from `unsigned` arguments.
use my_git_hub.Common.{
  ℕ, ◌+◌, ◌%◌, Bool, ◌&&◌, Option, none, some, List, [], ◌∷◌, ltb, ◌==◌, if◌then◌else◌, is_empty,
  is_some,
}
use my_git_hub.Common.Words.{add32, mul32, add64, sub64, div64, u32_mod}
use my_git_hub.Common.OrderedMap.{OrderedMap, find, update, erase, last_entry, map_values}
use my_git_hub.PrioritizedQueue.SubQueue.{
  SubQueue, fresh, set_max_tokens, put_tokens, take_tokens, front, pop_front, sub_length, empty,
  sub_remove_by_filter, sub_remove_by_class,
}
use my_git_hub.PrioritizedQueue.SubQueue

abbrev pub SubQueues {ℓ} : Type ℓ → Type ℓ
SubQueues T = OrderedMap (SubQueue T)

pub record PrioritizedQueue {ℓ} (T : Type ℓ) : Type ℓ where
  pub total_priority : ℕ
  pub max_tokens_per_subqueue : ℕ
  pub min_cost : ℕ
  pub high_queue : SubQueues T
  pub queue : SubQueues T

-- the tokens that the queue of priority `p` gets
abbrev pub share : ℕ → ℕ → ℕ → ℕ
share total cost p = (div64 (mul32 p cost) total + 1) % u32_mod

infixl 5 ◌>>=◌
abbrev pub ◌>>=◌ {κ μ} : {A : Type κ} {B : Type μ} → Option A → (A → Option B) → Option B
none >>= g = none
some a >>= g = g a

module _ {ℓ} {T : Type ℓ} where
  -- `PrioritizedQueue(max_per, min_c)`
  unfoldable pub init : ℕ → ℕ → PrioritizedQueue T
  init max_per min_c = record {
    total_priority = 0;
    max_tokens_per_subqueue = max_per;
    min_cost = min_c;
    high_queue = [];
    queue = [];
  }

  -- The state after `create_queue(priority)`; the pointer that it returns is to the entry.
  unfoldable pub create_queue : ℕ → PrioritizedQueue T → PrioritizedQueue T
  create_queue p pq = if is_some (find p pq.queue) then pq else record pq {
    total_priority = add64 pq.total_priority p;
    queue = update p (set_max_tokens (pq.max_tokens_per_subqueue % u32_mod)) fresh pq.queue;
  }

  -- `create_queue(priority)->…`: the entry is made where it is missing, then `g` changes it.
  unfoldable pub on_queue : ℕ → (SubQueue T → SubQueue T) → PrioritizedQueue T → PrioritizedQueue T
  unfolding create_queue
  on_queue p g pq = let pq' = create_queue p pq in record pq' { queue = update p g fresh pq'.queue }

  unfoldable pub remove_queue : ℕ → PrioritizedQueue T → PrioritizedQueue T
  remove_queue p pq = record pq {
    queue = erase p pq.queue;
    total_priority = sub64 pq.total_priority p;
  }

  unfoldable pub distribute_tokens : ℕ → PrioritizedQueue T → PrioritizedQueue T
  distribute_tokens cost pq = if pq.total_priority == 0 then pq else record pq {
    queue = map_values (λ p sq. put_tokens (share pq.total_priority cost p) sq) pq.queue;
  }

  -- `total += i->second.length()` over the entries
  unfoldable pub add_lengths : ℕ → SubQueues T → ℕ
  add_lengths total [] = total
  add_lengths total ((p, sq) ∷ m) = add_lengths (add32 total (sub_length sq)) m

  unfoldable pub length : PrioritizedQueue T → ℕ
  unfolding add_lengths
  length pq = add_lengths (add_lengths 0 pq.queue) pq.high_queue

  -- The loop of `remove_by_filter` over `_queue`, with `_total_priority`.
  unfoldable pub filter_queue : (T → Bool) → ℕ → SubQueues T → ℕ × SubQueues T
  filter_queue f total [] = (total, [])
  filter_queue f total ((p, sq) ∷ m) =
      let sq' = sub_remove_by_filter f sq in
      let (t, m') = filter_queue f (if empty sq' then sub64 total p else total) m in
      (t, if empty sq' then m' else (p, sq') ∷ m')

  -- The loop over `_high_queue`.
  unfoldable pub filter_high : (T → Bool) → SubQueues T → SubQueues T
  filter_high f [] = []
  filter_high f ((p, sq) ∷ m) =
      let sq' = sub_remove_by_filter f sq in
      let m' = filter_high f m in if empty sq' then m' else (p, sq') ∷ m'

  unfoldable pub remove_by_filter : (T → Bool) → PrioritizedQueue T → PrioritizedQueue T
  unfolding filter_queue filter_high
  remove_by_filter f pq =
      let (t, queue') = filter_queue f pq.total_priority pq.queue in
      record pq { total_priority = t; queue = queue'; high_queue = filter_high f pq.high_queue }

  -- The loops of `remove_by_class`, with `out`.
  unfoldable pub drop_class_queue :
      ℕ → Option (List T) → ℕ → SubQueues T → Option (List T) × ℕ × SubQueues T
  drop_class_queue k out total [] = (out, total, [])
  drop_class_queue k out total ((p, sq) ∷ m) =
      let (sq', out') = sub_remove_by_class k out sq in
      let (o, t, m') = drop_class_queue k out' (if empty sq' then sub64 total p else total) m in
      (o, t, if empty sq' then m' else (p, sq') ∷ m')

  unfoldable pub drop_class_high : ℕ → Option (List T) → SubQueues T → Option (List T) × SubQueues T
  drop_class_high k out [] = (out, [])
  drop_class_high k out ((p, sq) ∷ m) =
      let (sq', out') = sub_remove_by_class k out sq in
      let (o, m') = drop_class_high k out' m in (o, if empty sq' then m' else (p, sq') ∷ m')

  unfoldable pub remove_by_class :
      ℕ → Option (List T) → PrioritizedQueue T → PrioritizedQueue T × Option (List T)
  unfolding drop_class_queue drop_class_high
  remove_by_class k out pq =
      let (o, t, queue') = drop_class_queue k out pq.total_priority pq.queue in
      let (o', high') = drop_class_high k o pq.high_queue in
      (record pq { total_priority = t; queue = queue'; high_queue = high' }, o')

  -- `_high_queue[priority].enqueue(cl, 0, item)`
  unfoldable pub enqueue_strict : ℕ → ℕ → T → PrioritizedQueue T → PrioritizedQueue T
  enqueue_strict cl p item pq = record pq {
    high_queue = update p (SubQueue.enqueue cl 0 item) fresh pq.high_queue;
  }

  unfoldable pub enqueue_strict_front : ℕ → ℕ → T → PrioritizedQueue T → PrioritizedQueue T
  enqueue_strict_front cl p item pq = record pq {
    high_queue = update p (SubQueue.enqueue_front cl 0 item) fresh pq.high_queue;
  }

  -- the two tests on `cost`; the second assigns an `int64_t` to an `unsigned`
  unfoldable pub clamp_cost : PrioritizedQueue T → ℕ → ℕ
  clamp_cost pq cost =
      let c = if ltb cost pq.min_cost then pq.min_cost % u32_mod else cost in
      if ltb pq.max_tokens_per_subqueue c then pq.max_tokens_per_subqueue % u32_mod else c

  unfoldable pub enqueue : ℕ → ℕ → ℕ → T → PrioritizedQueue T → PrioritizedQueue T
  unfolding on_queue
  enqueue cl p cost item pq = on_queue p (SubQueue.enqueue cl (clamp_cost pq cost) item) pq

  unfoldable pub enqueue_front : ℕ → ℕ → ℕ → T → PrioritizedQueue T → PrioritizedQueue T
  unfolding on_queue
  enqueue_front cl p cost item pq =
      on_queue p (SubQueue.enqueue_front cl (clamp_cost pq cost) item) pq

  -- `bool empty()`
  unfoldable pub is_idle : PrioritizedQueue T → Bool
  is_idle pq = is_empty pq.queue && is_empty pq.high_queue

  -- The first queue, from the lowest priority on, whose front item costs less than its tokens.
  -- `none` outside is a `front` that C++ leaves undefined.
  unfoldable pub pick : SubQueues T → Option (Option (ℕ × SubQueue T))
  pick [] = some none
  pick ((p, sq) ∷ m) =
      let rest = pick m in front sq >>= λ e. if ltb e.0 sq.tokens then some (some (p, sq)) else rest

  -- The sub-queue of priority `p` after its `pop_front`: it goes if it is empty.
  unfoldable pub put_back : ℕ → SubQueue T → PrioritizedQueue T → PrioritizedQueue T
  unfolding remove_queue
  put_back p sq pq =
      if empty sq
      then remove_queue p pq
      else record pq { queue = update p (λ _. sq) fresh pq.queue }

  -- The first branch of `dequeue`, at the last entry of `_high_queue`.
  unfoldable pub dequeue_high :
      Option (ℕ × SubQueue T) → PrioritizedQueue T → Option (T × PrioritizedQueue T)
  dequeue_high none pq = none
  dequeue_high (some (p, sq)) pq = do
    e ← front sq
    sq' ← pop_front sq
    some (
      e.1,
      record pq {
        high_queue =
            if empty sq' then erase p pq.high_queue else update p (λ _. sq') fresh pq.high_queue;
      },
    )

  -- The body of the loop of `dequeue` at a queue that has the tokens.
  unfoldable pub dequeue_paid :
      ℕ → SubQueue T → PrioritizedQueue T → Option (T × PrioritizedQueue T)
  unfolding put_back distribute_tokens
  dequeue_paid p sq pq = do
    e ← front sq
    sq' ← pop_front (take_tokens e.0 sq)
    some (e.1, distribute_tokens e.0 (put_back p sq' pq))

  -- The end of `dequeue`, at the last entry of `_queue`: no tokens are taken.
  unfoldable pub dequeue_last :
      Option (ℕ × SubQueue T) → PrioritizedQueue T → Option (T × PrioritizedQueue T)
  unfolding put_back distribute_tokens
  dequeue_last none pq = none
  dequeue_last (some (p, sq)) pq = do
    e ← front sq
    sq' ← pop_front sq
    some (e.1, distribute_tokens e.0 (put_back p sq' pq))

  unfoldable pub dequeue_normal :
      Option (Option (ℕ × SubQueue T)) → PrioritizedQueue T → Option (T × PrioritizedQueue T)
  unfolding dequeue_paid dequeue_last
  dequeue_normal none pq = none
  dequeue_normal (some none) pq = dequeue_last (last_entry pq.queue) pq
  dequeue_normal (some (some (p, sq))) pq = dequeue_paid p sq pq

  unfoldable pub dequeue : PrioritizedQueue T → Option (T × PrioritizedQueue T)
  unfolding dequeue_high dequeue_normal
  dequeue pq =
      if is_empty pq.high_queue
      then dequeue_normal (pick pq.queue) pq
      else dequeue_high (last_entry pq.high_queue) pq
