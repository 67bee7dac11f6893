-- ===== src/PrioritizedQueue/SubQueue/Removal.antt =====
-- What `remove_by_filter` leaves of a sub-queue, and that it keeps the invariant.
use my_git_hub.Common.{
  ℕ, suc, ◌+◌, ◌%◌, ◌<◌, ◌≡◌, refl, ap, Bool, true, Option, none, some, [], ◌∷◌, arith, ◌==◌,
  if◌then◌else◌, length, is_empty, inl, inr, Bool-cases,
}
use my_git_hub.Common.Words.{u32_mod, u64_mod, sub64}
use my_git_hub.Common.OrderedMap.{find, first_key, SortedFrom, SortedFrom-mono, find_below}
use my_git_hub.PrioritizedQueue.SubQueue.Defs.{
  ListPairs, Classes, SubQueue, pass_by, filter_list_pairs, filter_classes, sub_remove_by_filter,
}
use my_git_hub.PrioritizedQueue.SubQueue.View.{class_list, class_items, count, AllFilled}
use my_git_hub.PrioritizedQueue.SubQueue.Invariant.{
  IsValid, CursorIn, IsCursor-CursorIn, wrap-IsCursor,
}

module _ {ℓ} {T : Type ℓ} where
  -- The pairs whose item `f` does not take out, in their order.
  unfoldable pub reject : (T → Bool) → ListPairs T → ListPairs T
  reject f [] = []
  reject f ((c, x) ∷ l) = if f x then reject f l else (c, x) ∷ reject f l

  -- The classes without those items, and without the classes that have no other.
  sweep : (T → Bool) → Classes T → Classes T
  sweep f [] = []
  sweep f ((k, l) ∷ m) = if is_empty (reject f l) then sweep f m else (k, reject f l) ∷ sweep f m

module _ {ℓ} {T : Type ℓ} (f : T → Bool) where
  filter_list_pairs-reject : (l : ListPairs T) → (filter_list_pairs f l).1 ≡ reject f l
  unfolding filter_list_pairs reject
  filter_list_pairs-reject [] = refl
  filter_list_pairs-reject ((c, x) ∷ l) = ground (arith, filter_list_pairs-reject l)

  filter_list_pairs-count :
      (l : ListPairs T)
      → length l < u32_mod
      → (filter_list_pairs f l).0 + length (reject f l) ≡ length l
  unfolding filter_list_pairs reject
  filter_list_pairs-count [] h = refl
  filter_list_pairs-count ((c, x) ∷ l) h = ground (arith, filter_list_pairs-count l)

  filter_classes-sweep :
      (cur : Option ℕ) (size : ℕ) (m : Classes T) → (filter_classes f cur size m).2 ≡ sweep f m
  unfolding filter_classes sweep
  filter_classes-sweep cur size [] = refl
  filter_classes-sweep cur size ((k, l) ∷ m) = rw (filter_list_pairs-reject l) (
      ap (λ r. if is_empty (reject f l) then r else (k, reject f l) ∷ r)
        (filter_classes-sweep (pass_by (is_empty (reject f l)) cur k m) _ m))

  sweep-SortedFrom : (b : ℕ) (m : Classes T) → SortedFrom b m → SortedFrom b (sweep f m)
  unfolding sweep
  sweep-SortedFrom b [] s = tt
  sweep-SortedFrom b ((k, l) ∷ m) s =
      ground (arith, sweep-SortedFrom (suc k) m s.1, SortedFrom-mono b (suc k) (sweep f m))

  sweep-AllFilled : (m : Classes T) → AllFilled (sweep f m)
  unfolding sweep
  sweep-AllFilled [] = tt
  sweep-AllFilled ((k, l) ∷ m) = ground (arith, sweep-AllFilled m)

  class_list-sweep :
      (b j : ℕ) (m : Classes T)
      → SortedFrom b m
      → class_list j (sweep f m) ≡ reject f (class_list j m)
  unfolding sweep find reject
  class_list-sweep b j [] s = refl
  class_list-sweep b j ((k, l) ∷ m) s = ground (
    arith,
    class_list-sweep (suc k) j m s.1,
    find_below (suc k) j (sweep f m) (sweep-SortedFrom (suc k) m s.1),
  )

  filter_classes-count :
      (cur : Option ℕ) (size x : ℕ) (m : Classes T)
      → count m < u32_mod
      → size ≡ (count m + x) % u64_mod
      → (filter_classes f cur size m).1 ≡ (count (sweep f m) + x) % u64_mod
  unfolding filter_classes sweep
  filter_classes-count cur size x [] h e = e
  filter_classes-count cur size x ((k, l) ∷ m) h e = ground (
    arith,
    filter_list_pairs-count l,
    filter_list_pairs-reject l,
    filter_classes-count (pass_by (is_empty (reject f l)) cur k m)
        (sub64 size (filter_list_pairs f l).0) (length (reject f l) + x) m,
  )

  first_key-CursorIn : (m : Classes T) → CursorIn (first_key m) m
  unfolding find
  first_key-CursorIn [] = tt
  first_key-CursorIn ((k, l) ∷ m) = ground arith

  CursorIn-cons :
      (c : Option ℕ) (k : ℕ) (l : ListPairs T) (m : Classes T)
      → SortedFrom (suc k) m
      → CursorIn c m
      → CursorIn c ((k, l) ∷ m)
  unfolding find
  CursorIn-cons none k l m s h = tt
  CursorIn-cons (some j) k l m s h = ground (arith, find_below (suc k) j m s)

  filter_classes_before :
      (b j size : ℕ) (m : Classes T)
      → SortedFrom b m
      → j < b
      → (filter_classes f (some j) size m).0 ≡ some j
  unfolding filter_classes
  filter_classes_before b j size [] s h = refl
  filter_classes_before b j size ((k, l) ∷ m) s h = ground (
    arith,
    filter_list_pairs-reject l,
    filter_classes_before (suc k) j (sub64 size (filter_list_pairs f l).0) m s.1,
  )

  pass_by-CursorIn :
      (b k : ℕ) (cur : Option ℕ) (l : ListPairs T) (m : Classes T)
      → SortedFrom b ((k, l) ∷ m)
      → CursorIn cur ((k, l) ∷ m)
      → CursorIn (pass_by true cur k m) m
  unfolding find
  pass_by-CursorIn b k none l m s h = tt
  pass_by-CursorIn b k (some j) l m s h = elim (Bool-cases (j == k)) [
    | inl e ↦ rw e (first_key-CursorIn m)
    | inr e ↦ rw e (ground arith)
  ]

  -- A class that stays, with the cursor at it or behind it.
  kept :
      (b k : ℕ) (cur : Option ℕ) (l' l : ListPairs T) (size : ℕ) (m : Classes T)
      → SortedFrom b ((k, l) ∷ m)
      → CursorIn cur ((k, l) ∷ m)
      → (CursorIn cur m → CursorIn (filter_classes f cur size m).0 (sweep f m))
      → CursorIn (filter_classes f cur size m).0 ((k, l') ∷ sweep f m)
  unfolding find
  kept b k none l' l size m s h ih =
      CursorIn-cons _ k l' (sweep f m) (sweep-SortedFrom (suc k) m s.1) (ih tt)
  kept b k (some j) l' l size m s h ih = elim (Bool-cases (j == k)) [
    | inl e ↦ rw (filter_classes_before (suc k) j size m s.1 (ground arith)) (ground arith)
    | inr e ↦ CursorIn-cons _ k l' (sweep f m) (sweep-SortedFrom (suc k) m s.1) (ih (ground arith))
  ]

  filter_classes-CursorIn :
      (b : ℕ) (cur : Option ℕ) (size : ℕ) (m : Classes T)
      → SortedFrom b m
      → CursorIn cur m
      → CursorIn (filter_classes f cur size m).0 (sweep f m)
  unfolding filter_classes sweep
  filter_classes-CursorIn b cur size [] s h = h
  filter_classes-CursorIn b cur size ((k, l) ∷ m) s h = elim (Bool-cases (is_empty (reject f l))) [
    | inl e ↦
        rw (filter_list_pairs-reject l, e)
          (filter_classes-CursorIn (suc k) (pass_by true cur k m) _ m s.1
            (pass_by-CursorIn b k cur l m s h))
    | inr e ↦
        rw (filter_list_pairs-reject l, e)
          (kept b k cur (reject f l) l (sub64 size (filter_list_pairs f l).0) m s h
            (filter_classes-CursorIn (suc k) cur (sub64 size (filter_list_pairs f l).0) m s.1))
  ]

  -- What is left of each class is its items that `f` does not take out, in their order.
  pub class_items-sub_remove_by_filter :
      (j : ℕ) (sq : SubQueue T)
      → IsValid sq
      → class_items j (sub_remove_by_filter f sq) ≡ reject f (class_items j sq)
  unfolding sub_remove_by_filter
  class_items-sub_remove_by_filter j sq v =
      rw (filter_classes-sweep sq.cur sq.size sq.q) (class_list-sweep 0 j sq.q v.sorted)

  pub sub_remove_by_filter-IsValid :
      {sq : SubQueue T} → count sq.q < u32_mod → IsValid sq → IsValid (sub_remove_by_filter f sq)
  unfolding sub_remove_by_filter
  sub_remove_by_filter-IsValid {sq} h v = rw (filter_classes-sweep sq.cur sq.size sq.q) (record {
    sorted = sweep-SortedFrom 0 sq.q v.sorted;
    filled = sweep-AllFilled sq.q;
    cursor = wrap-IsCursor _ _ (
        filter_classes-CursorIn 0 sq.cur sq.size sq.q v.sorted
          (IsCursor-CursorIn sq.cur sq.q v.cursor));
    counted = ground (arith, v.counted, filter_classes-count sq.cur sq.size 0 sq.q h);
    budget = v.budget;
  })
