-- ===== src/PrioritizedQueue/Tests.antt =====
-- Runs of trunk/include/common/prioritizedqueue.h on a queue with one strict and two normal items.
use my_git_hub.Common.{ℕ, ◌≡◌, refl, Option, none, some, [], ◌∷◌, ◌++◌, ltb, arith}
use my_git_hub.Common.OrderedMap.{find, update, last_entry}
use my_git_hub.PrioritizedQueue.{
  PrioritizedQueue, init, enqueue, enqueue_front, enqueue_strict, enqueue_strict_front, is_idle,
  dequeue, remove_by_filter, remove_by_class,
}
use my_git_hub.PrioritizedQueue.View.{high, normal, pending, IsValid, init-IsValid}
use my_git_hub.PrioritizedQueue.Enqueue.{enqueue-IsValid_pq, enqueue_strict-IsValid}
use my_git_hub.PrioritizedQueue.Puts.{Puts, ways_in-Puts}
use my_git_hub.PrioritizedQueue.History.{
  Reachable, new, and_then, behind, strict, class_removed, Reachable-IsValid,
}
use my_git_hub.PrioritizedQueue.Policy.{SomeServed, dequeue-Serves}
use my_git_hub.PrioritizedQueue.SubQueue.Removal.{reject}
use my_git_hub.PrioritizedQueue.SubQueue.ByClass.{items_of}
use my_git_hub.PrioritizedQueue.Removal.{pending-remove_by_filter}
use my_git_hub.PrioritizedQueue.ByClass.{class_in_all, pending-remove_by_class, out-remove_by_class}
use my_git_hub.PrioritizedQueue.SubQueue.{SubQueue, fresh}
use my_git_hub.PrioritizedQueue.SubQueue
use my_git_hub.PrioritizedQueue.SubQueue.Invariant

abbrev one_item : PrioritizedQueue ℕ
one_item = enqueue 1 3 10 7 (init 100 4)

abbrev waiting : PrioritizedQueue ℕ
waiting = enqueue_strict 2 5 9 (enqueue 1 4 200 8 one_item)

one_item-IsValid : IsValid one_item
one_item-IsValid = enqueue-IsValid_pq 1 3 10 7 (init-IsValid 100 4)

waiting-IsValid : IsValid waiting
waiting-IsValid = enqueue_strict-IsValid 2 5 9 (enqueue-IsValid_pq 1 4 200 8 one_item-IsValid)

abbrev first_out : Option (ℕ × PrioritizedQueue ℕ) → ℕ
first_out none = 0
first_out (some (x, pq)) = x

strict_first : first_out (dequeue waiting) ≡ 9
unfolding dequeue enqueue enqueue_strict SubQueue.enqueue update find init last_entry SubQueue.front
    fresh SubQueue.pop_front
strict_first = refl

dequeue-Serves_example : SomeServed waiting
unfolding is_idle enqueue enqueue_strict update find init
dequeue-Serves_example = dequeue-Serves waiting-IsValid refl

ways_in-Puts_example :
    Puts normal 3 1 (λ l. l ++ (100, 6) ∷ []) waiting (enqueue 1 3 500 6 waiting)
    × Puts normal 3 1 (λ l. (100, 6) ∷ l) waiting (enqueue_front 1 3 500 6 waiting)
    × Puts high 3 1 (λ l. l ++ (0, 6) ∷ []) waiting (enqueue_strict 1 3 6 waiting)
    × Puts high 3 1 (λ l. (0, 6) ∷ l) waiting (enqueue_strict_front 1 3 6 waiting)
unfolding enqueue enqueue_strict init update find
ways_in-Puts_example = ways_in-Puts 1 3 500 6 waiting (omega arith) (omega arith)

waiting-Reachable : Reachable (remove_by_class 2 none waiting).0
waiting-Reachable =
    and_then
      (and_then (and_then (and_then (new 100 4) (behind 1 3 10 7)) (behind 1 4 200 8))
        (strict 2 5 9))
      (class_removed 2 none)

Reachable-IsValid_example : IsValid (remove_by_class 2 none waiting).0
Reachable-IsValid_example = Reachable-IsValid waiting-Reachable

pending-remove_by_filter_example :
    pending normal 4 1 (remove_by_filter (ltb 7) waiting)
    ≡ reject (ltb 7) (pending normal 4 1 waiting)
pending-remove_by_filter_example = pending-remove_by_filter (ltb 7) normal 4 1 waiting-IsValid

pending-remove_by_class_example : pending normal 3 1 (remove_by_class 1 none waiting).0 ≡ []
pending-remove_by_class_example = pending-remove_by_class 1 normal 3 1 none waiting-IsValid

out-remove_by_class_example : (remove_by_class 1 (some (5 ∷ [])) waiting).1 ≡ some (8 ∷ 7 ∷ 5 ∷ [])
unfolding enqueue enqueue_strict SubQueue.enqueue update find init fresh class_in_all items_of
    SubQueue.set_max_tokens
out-remove_by_class_example = out-remove_by_class 1 (5 ∷ []) waiting

-- two classes, the cursor at the first one that came
abbrev two_classes : SubQueue ℕ
two_classes = SubQueue.enqueue 1 10 8 (SubQueue.enqueue 2 10 7 fresh)
