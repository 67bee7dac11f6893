-- ===== src/PrioritizedQueue/SubQueue/ByClass.antt =====
-- What `remove_by_class` takes from a sub-queue, and that it keeps the invariant.
use my_git_hub.Common.{
  ℕ, ◌≡◌, refl, ap, Option, none, some, List, [], ◌∷◌, ◌++◌, arith, ◌==◌, if◌then◌else◌, length,
  get_or, inl, inr, Bool-cases,
}
use my_git_hub.Common.OrderedMap.{find, erase, next_key, IsSorted, find-erase, erase-SortedFrom}
use my_git_hub.PrioritizedQueue.SubQueue.Defs.{
  ListPairs, Classes, SubQueue, at_key, push_all, drop_class, sub_remove_by_class,
}
use my_git_hub.PrioritizedQueue.SubQueue.View.{
  class_items, class_list-erase, count-erase, erase-AllFilled,
}
use my_git_hub.PrioritizedQueue.SubQueue.Invariant.{
  IsValid, CursorIn, IsCursor-CursorIn, wrap-IsCursor, next_key-CursorIn-erase,
}

module _ {ℓ} {T : Type ℓ} where
  -- The items without their costs.
  unfoldable pub items_of : ListPairs T → List T
  items_of [] = []
  items_of ((c, x) ∷ l) = x ∷ items_of l

  push_all-append : (l : ListPairs T) (out : List T) → push_all l out ≡ items_of l ++ out
  unfolding push_all items_of
  push_all-append [] out = refl
  push_all-append ((c, x) ∷ l) out = ap (◌∷◌ x) (push_all-append l out)

  erase-CursorIn :
      (k : ℕ) (cur : Option ℕ) (m : Classes T)
      → IsSorted m
      → CursorIn cur m
      → CursorIn (if at_key cur k then next_key k m else cur) (erase k m)
  erase-CursorIn k none m s h = tt
  erase-CursorIn k (some j) m s h = elim (Bool-cases (j == k)) [
    | inl e ↦ rw e (next_key-CursorIn-erase k m s)
    | inr e ↦ rw e (ground (arith, find-erase 0 j k m s))
  ]

  drop_class-IsValid :
      (k : ℕ) (o : Option (ListPairs T)) (out : Option (List T)) {sq : SubQueue T}
      → IsValid sq
      → find k sq.q ≡ o
      → IsValid (drop_class k o out sq).0
  unfolding drop_class
  drop_class-IsValid k none out v e = v
  drop_class-IsValid k (some l) out {sq} v e = record {
    sorted = erase-SortedFrom 0 k sq.q v.sorted;
    filled = erase-AllFilled k sq.q v.filled;
    cursor =
        wrap-IsCursor _ _
          (erase-CursorIn k sq.cur sq.q v.sorted (IsCursor-CursorIn sq.cur sq.q v.cursor));
    counted = omega (arith, v.counted, count-erase k sq.q, ap (λ o. length (get_or o [])) e);
    budget = v.budget;
  }

  pub sub_remove_by_class-IsValid :
      (k : ℕ) (out : Option (List T)) {sq : SubQueue T}
      → IsValid sq
      → IsValid (sub_remove_by_class k out sq).0
  unfolding sub_remove_by_class
  sub_remove_by_class-IsValid k out {sq} v = drop_class-IsValid k (find k sq.q) out v refl

  drop_class-items :
      (j k : ℕ) (o : Option (ListPairs T)) (out : Option (List T)) {sq : SubQueue T}
      → IsValid sq
      → find k sq.q ≡ o
      → class_items j (drop_class k o out sq).0 ≡ (if j == k then [] else class_items j sq)
  unfolding drop_class
  drop_class-items j k none out {sq} v e = ground arith
  drop_class-items j k (some l) out {sq} v e = class_list-erase j k sq.q v.sorted

  -- The class `k` goes as a whole, and no other.
  pub class_items-sub_remove_by_class :
      (j k : ℕ) (out : Option (List T)) {sq : SubQueue T}
      → IsValid sq
      → class_items j (sub_remove_by_class k out sq).0 ≡ (if j == k then [] else class_items j sq)
  unfolding sub_remove_by_class
  class_items-sub_remove_by_class j k out {sq} v = drop_class-items j k (find k sq.q) out v refl

  drop_class-out :
      (k : ℕ) (o : Option (ListPairs T)) (out : List T) (sq : SubQueue T)
      → find k sq.q ≡ o
      → (drop_class k o (some out) sq).1 ≡ some (items_of (class_items k sq) ++ out)
  unfolding drop_class items_of
  drop_class-out k none out sq e = rw e refl
  drop_class-out k (some l) out sq e = rw e (ap some (push_all-append l out))

  -- Its items go to the front of `out`, in their order.
  pub out-sub_remove_by_class :
      (k : ℕ) (out : List T) (sq : SubQueue T)
      → (sub_remove_by_class k (some out) sq).1 ≡ some (items_of (class_items k sq) ++ out)
  unfolding sub_remove_by_class
  out-sub_remove_by_class k out sq = drop_class-out k (find k sq.q) out sq refl
