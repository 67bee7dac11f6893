-- ===== src/PrioritizedQueue/SubQueue/Pop.antt =====
-- What `front` and `pop_front` do: an item leaves the class at the cursor, and the cursor goes on.
use my_git_hub.Common.{
  ℕ, ◌≡◌, refl, false, Option, none, some, [], ◌∷◌, arith, ◌==◌, is_empty, inl, inr, Option-cases,
}
use my_git_hub.Common.OrderedMap.{find, next_key, next_key-erase}
use my_git_hub.PrioritizedQueue.SubQueue.Defs.{
  ListPairs, Classes, SubQueue, wrap, empty, erase_class, keep_class, front, pop_class, pop_at,
  pop_front,
}
use my_git_hub.PrioritizedQueue.SubQueue.View.{
  class_items, AllFilled, class_list-update, class_list-erase,
}
use my_git_hub.PrioritizedQueue.SubQueue.Invariant.{IsValid}

module _ {ℓ} {T : Type ℓ} where
  -- `p` leaves the front of the class `k`, where the cursor stood; the cursor goes to the next class
  -- in a circle.
  pub record Pops (sq : SubQueue T) (k : ℕ) (p : ℕ × T) (r : SubQueue T) : Type ℓ where
    pub at : sq.cur ≡ some k
    pub fronted : front sq ≡ some p
    pub popped : pop_front sq ≡ some r
    pub taken : class_items k sq ≡ p ∷ class_items k r
    pub others : (j : ℕ) → (j == k) ≡ false → class_items j r ≡ class_items j sq
    pub advanced : r.cur ≡ wrap (next_key k r.q) r.q

  AllFilled-find :
      (k : ℕ) (m : Classes T) {l : ListPairs T}
      → AllFilled m
      → find k m ≡ some l
      → is_empty l ≡ false
  unfolding find
  AllFilled-find k [] a e = cc
  AllFilled-find k ((j, l') ∷ m) {l} a e = ground (arith, AllFilled-find k m {l = l} a.1)

  pop_list :
      (sq : SubQueue T) (k : ℕ) (l : ListPairs T)
      → IsValid sq
      → sq.cur ≡ some k
      → find k sq.q ≡ some l
      → is_empty l ≡ false
      → (p : ℕ × T) × (r : SubQueue T) × Pops sq k p r
  unfolding pop_front front pop_at pop_class
  pop_list sq k [] v c e h = absurd (cc)
  pop_list sq k (x ∷ []) v c e h = (
    x,
    erase_class sq k,
    record {
      at = c;
      fronted = rw (c, e);
      popped = rw (c, e);
      taken = ground (arith, class_list-erase k k sq.q v.sorted);
      others = λ j ne. ground (arith, class_list-erase j k sq.q v.sorted);
      advanced = rw (next_key-erase 0 k sq.q v.sorted) refl;
    },
  )
  pop_list sq k (x ∷ y ∷ l) v c e h = (
    x,
    keep_class sq k (y ∷ l),
    record {
      at = c;
      fronted = rw (c, e);
      popped = rw (c, e);
      taken = ground (arith, class_list-update k k (λ _. y ∷ l) sq.q);
      others = λ j ne. ground (arith, class_list-update j k (λ _. y ∷ l) sq.q);
      advanced = refl;
    },
  )

  -- The class at the cursor of a valid sub-queue that is not empty.
  pub cursor_list :
      {sq : SubQueue T}
      → IsValid sq
      → empty sq ≡ false
      → (k : ℕ) × (l : ListPairs T) × (sq.cur ≡ some k)
        × (find k sq.q ≡ some l)
        × (is_empty l ≡ false)
  unfolding empty
  cursor_list {sq} v h = go sq.cur refl
    where
      go :
          (c : Option ℕ)
          → sq.cur ≡ c
          → (k : ℕ) × (l : ListPairs T) × (sq.cur ≡ some k)
            × (find k sq.q ≡ some l)
            × (is_empty l ≡ false)
      go none e = ground arith
      go (some k) e = elim (Option-cases (find k sq.q)) [
        | inl f ↦ absurd (ground arith)
        | inr (l, f) ↦ (k, l, e, f, AllFilled-find k sq.q v.filled f)
      ]

  pub pop_front-Pops :
      {sq : SubQueue T}
      → IsValid sq
      → empty sq ≡ false
      → (k : ℕ) × (p : ℕ × T) × (r : SubQueue T) × Pops sq k p r
  pop_front-Pops {sq} v h =
      let (k, l, c, e, f) = cursor_list v h in
      let (p, r, pops) = pop_list sq k l v c e f in (k, p, r, pops)
