-- ===== src/PrioritizedQueue/SubQueue/Invariant.antt =====
-- The representation invariant of `SubQueue`, and that each operation keeps it.
use my_git_hub.Common.{
  ℕ, ◌%◌, ◌≤◌, ◌≡◌, refl, true, false, Option, none, some, [], ◌∷◌, ◌++◌, arith, length, is_empty,
  is_some, get_or, length-append, inl, inr, ap, Option-cases, Ensures,
}
use my_git_hub.Common.Words.{u64_mod}
use my_git_hub.Common.OrderedMap.{
  OrderedMap, find, update, erase, next_key, IsSorted, find-update, find-erase, next_key-has_key,
  update-SortedFrom, erase-SortedFrom,
}
use my_git_hub.PrioritizedQueue.SubQueue.Defs.{
  ListPairs, Classes, SubQueue, wrap, fresh, copy, put_tokens, take_tokens, enqueue, enqueue_front,
  pop_class, pop_at, pop_front,
}
use my_git_hub.PrioritizedQueue.SubQueue.View.{
  class_list, count, AllFilled, count-update, count-erase, update-AllFilled, erase-AllFilled,
}

module _ {ℓ} {V : Type ℓ} where
  -- The iterator stands at an entry, or at the end.
  abbrev pub CursorIn : Option ℕ → OrderedMap V → Type 0
  CursorIn none m = Unit {0}
  CursorIn (some k) m = is_some (find k m) ≡ true

  -- It stands at the end only where there is no entry.
  abbrev pub IsCursor : Option ℕ → OrderedMap V → Type 0
  IsCursor none m = is_empty m ≡ true
  IsCursor (some k) m = is_some (find k m) ≡ true

  pub wrap-IsCursor : (c : Option ℕ) (m : OrderedMap V) → CursorIn c m → IsCursor (wrap c m) m
  unfolding find
  wrap-IsCursor none [] h = refl
  wrap-IsCursor none ((k, v) ∷ m) h = ground arith
  wrap-IsCursor (some k) m h = h

  pub next_key-CursorIn : (i : ℕ) (m : OrderedMap V) → IsSorted m → CursorIn (next_key i m) m
  next_key-CursorIn i m s = elim (Option-cases (next_key i m)) [
    | inl e ↦ rw e tt
    | inr (j, e) ↦ rw e (next_key-has_key 0 i m s e).0
  ]

  -- An entry that `++` reaches is still there when the entry it came from is gone.
  pub next_key-CursorIn-erase :
      (i : ℕ) (m : OrderedMap V) → IsSorted m → CursorIn (next_key i m) (erase i m)
  next_key-CursorIn-erase i m s = elim (Option-cases (next_key i m)) [
    | inl e ↦ rw e tt
    | inr (j, e) ↦ rw e (ground (arith, next_key-has_key 0 i m s e, find-erase 0 j i m s))
  ]

module _ {ℓ} {T : Type ℓ} where
  pub record IsValid (sq : SubQueue T) : Type 0 where
    pub sorted : IsSorted sq.q
    pub filled : AllFilled sq.q
    pub cursor : IsCursor sq.cur sq.q
    pub counted : sq.size ≡ count sq.q % u64_mod
    pub budget : sq.tokens ≤ sq.max_tokens

  pub fresh-IsValid : IsValid fresh
  unfolding fresh
  fresh-IsValid = record {
    sorted = tt;
    filled = tt;
    cursor = refl;
    counted = omega arith;
    budget = omega arith;
  }

  pub copy-IsValid : {sq : SubQueue T} → IsValid sq → IsValid (copy sq)
  unfolding copy
  copy-IsValid {sq} v = record {
    sorted = v.sorted;
    filled = v.filled;
    cursor = wrap-IsCursor none sq.q tt;
    counted = v.counted;
    budget = v.budget;
  }

  pub put_tokens-IsValid : (t : ℕ) {sq : SubQueue T} → IsValid sq → IsValid (put_tokens t sq)
  unfolding put_tokens
  put_tokens-IsValid t v = record {
    sorted = v.sorted;
    filled = v.filled;
    cursor = v.cursor;
    counted = v.counted;
    budget = ground arith;
  }

  pub take_tokens-IsValid : (t : ℕ) {sq : SubQueue T} → IsValid sq → IsValid (take_tokens t sq)
  unfolding take_tokens
  take_tokens-IsValid t v = record {
    sorted = v.sorted;
    filled = v.filled;
    cursor = v.cursor;
    counted = v.counted;
    budget = ground arith;
  }

  pub IsCursor-CursorIn : (c : Option ℕ) (m : Classes T) → IsCursor c m → CursorIn c m
  IsCursor-CursorIn none m h = tt
  IsCursor-CursorIn (some k) m h = h

  update-CursorIn :
      (c : Option ℕ) (i : ℕ) (f : ListPairs T → ListPairs T) (m : Classes T)
      → CursorIn c m
      → CursorIn c (update i f [] m)
  update-CursorIn none i f m h = tt
  update-CursorIn (some k) i f m h = ground (arith, find-update k i f [] m)

  is_empty-append : (l : ListPairs T) (p : ℕ × T) → is_empty (l ++ p ∷ []) ≡ false
  is_empty-append [] p = refl
  is_empty-append (x ∷ l) p = refl

  pub enqueue-IsValid :
      (cl cost : ℕ) (x : T) {sq : SubQueue T} → IsValid sq → IsValid (enqueue cl cost x sq)
  unfolding enqueue
  enqueue-IsValid cl cost x {sq} v = record {
    sorted = update-SortedFrom 0 cl _ [] sq.q (omega arith) v.sorted;
    filled = update-AllFilled cl _ sq.q (λ l. is_empty-append l (cost, x)) v.filled;
    cursor =
        wrap-IsCursor sq.cur _
          (update-CursorIn sq.cur cl _ sq.q (IsCursor-CursorIn sq.cur sq.q v.cursor));
    counted = omega (
      arith,
      v.counted,
      count-update cl (λ l. l ++ (cost, x) ∷ []) sq.q,
      length-append (class_list cl sq.q) ((cost, x) ∷ []),
    );
    budget = v.budget;
  }

  pub enqueue_front-IsValid :
      (cl cost : ℕ) (x : T) {sq : SubQueue T} → IsValid sq → IsValid (enqueue_front cl cost x sq)
  unfolding enqueue_front
  enqueue_front-IsValid cl cost x {sq} v = record {
    sorted = update-SortedFrom 0 cl _ [] sq.q (omega arith) v.sorted;
    filled = update-AllFilled cl _ sq.q (λ l. refl) v.filled;
    cursor =
        wrap-IsCursor sq.cur _
          (update-CursorIn sq.cur cl _ sq.q (IsCursor-CursorIn sq.cur sq.q v.cursor));
    counted = omega (arith, v.counted, count-update cl (λ l. (cost, x) ∷ l) sq.q);
    budget = v.budget;
  }

  pop_class-IsValid :
      (k : ℕ) (o : Option (ListPairs T)) {sq : SubQueue T}
      → IsValid sq
      → find k sq.q ≡ o
      → Ensures IsValid (pop_class sq k o)
  unfolding pop_class
  pop_class-IsValid k none v e = tt
  pop_class-IsValid k (some []) v e = tt
  pop_class-IsValid k (some (x ∷ [])) {sq} v e = record {
    sorted = erase-SortedFrom 0 k sq.q v.sorted;
    filled = erase-AllFilled k sq.q v.filled;
    cursor = wrap-IsCursor _ _ (next_key-CursorIn-erase k sq.q v.sorted);
    counted = omega (arith, v.counted, count-erase k sq.q, ap (λ o. length (get_or o [])) e);
    budget = v.budget;
  }
  pop_class-IsValid k (some (x ∷ y ∷ l)) {sq} v e = record {
    sorted = update-SortedFrom 0 k _ [] sq.q (omega arith) v.sorted;
    filled = update-AllFilled k _ sq.q (λ _. refl) v.filled;
    cursor =
        wrap-IsCursor _ _
          (next_key-CursorIn k _ (update-SortedFrom 0 k _ [] sq.q (omega arith) v.sorted));
    counted =
        omega
          (arith, v.counted, count-update k (λ _. y ∷ l) sq.q, ap (λ o. length (get_or o [])) e);
    budget = v.budget;
  }

  pop_at-IsValid : (c : Option ℕ) {sq : SubQueue T} → IsValid sq → Ensures IsValid (pop_at sq c)
  unfolding pop_at
  pop_at-IsValid none v = tt
  pop_at-IsValid (some k) {sq} v = pop_class-IsValid k (find k sq.q) v refl

  pub pop_front-IsValid : {sq : SubQueue T} → IsValid sq → Ensures IsValid (pop_front sq)
  unfolding pop_front
  pop_front-IsValid {sq} v = pop_at-IsValid sq.cur v
