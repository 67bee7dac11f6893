-- ===== src/PrioritizedQueue/View.antt =====
-- The queue seen as one list of pending items for each lane, priority and class, and its invariant.
use my_git_hub.Common.{ℕ, ◌%◌, ◌≡◌, refl, Bool, true, false, Option, none, some, []}
use my_git_hub.Common.Words.{u64_mod}
use my_git_hub.Common.OrderedMap.{find, IsSorted, AllValues, key_sum}
use my_git_hub.PrioritizedQueue.Defs.{PrioritizedQueue, SubQueues, init}
use my_git_hub.PrioritizedQueue.SubQueue.{ListPairs, SubQueue, empty}
use my_git_hub.PrioritizedQueue.SubQueue.View.{class_items}
use my_git_hub.PrioritizedQueue.SubQueue.Invariant

-- The strict items stand in `_high_queue`, the others in `_queue`.
pub data Lane : Type 0 where
  high normal : Lane

abbrev pub at_lane : Lane → Lane → Bool
at_lane high high = true
at_lane high normal = false
at_lane normal high = false
at_lane normal normal = true

module _ {ℓ} {T : Type ℓ} where
  abbrev pub items_in : ℕ → Option (SubQueue T) → ListPairs T
  items_in k none = []
  items_in k (some sq) = class_items k sq

  abbrev pub lane_of : Lane → PrioritizedQueue T → SubQueues T
  lane_of high pq = pq.high_queue
  lane_of normal pq = pq.queue

  -- what waits in the lane `l` at priority `p` for the class `k`, in the order in which it goes out
  abbrev pub pending : Lane → ℕ → ℕ → PrioritizedQueue T → ListPairs T
  pending l p k pq = items_in k (find p (lane_of l pq))

  abbrev pub Good : SubQueue T → Type 0
  Good sq = Invariant.IsValid sq × (empty sq ≡ false)

  pub record IsValid (pq : PrioritizedQueue T) : Type 0 where
    pub sorted : IsSorted pq.queue
    pub sorted_high : IsSorted pq.high_queue
    pub good : AllValues Good pq.queue
    pub good_high : AllValues Good pq.high_queue
    pub total : pq.total_priority ≡ key_sum pq.queue % u64_mod

  pub init-IsValid : (max_per min_c : ℕ) → IsValid (init max_per min_c)
  unfolding init
  init-IsValid max_per min_c = record {
    sorted = tt;
    sorted_high = tt;
    good = tt;
    good_high = tt;
    total = refl;
  }
