-- ===== src/PrioritizedQueue/SubQueue/View.antt =====
-- A sub-queue seen as one list of items for each class, and what it holds in all.
use my_git_hub.Common.{
  ℕ, ◌+◌, ◌≡◌, false, [], ◌∷◌, arith, ◌==◌, if◌then◌else◌, length, is_empty, get_or,
}
use my_git_hub.Common.OrderedMap.{find, update, erase, IsSorted, find-update, find-erase}
use my_git_hub.PrioritizedQueue.SubQueue.Defs.{ListPairs, Classes, SubQueue}

module _ {ℓ} {T : Type ℓ} where
  abbrev pub class_list : ℕ → Classes T → ListPairs T
  class_list k m = get_or (find k m) []

  -- the items of a class, in the order in which they go out
  abbrev pub class_items : ℕ → SubQueue T → ListPairs T
  class_items k sq = class_list k sq.q

  abbrev pub count : Classes T → ℕ
  count [] = 0
  count ((k, l) ∷ m) = length l + count m

  -- No class is kept with an empty list.
  abbrev pub AllFilled : Classes T → Type 0
  AllFilled [] = Unit {0}
  AllFilled ((k, l) ∷ m) = (is_empty l ≡ false) × AllFilled m

  pub class_list-update :
      (j i : ℕ) (f : ListPairs T → ListPairs T) (m : Classes T)
      → class_list j (update i f [] m) ≡ (if j == i then f (class_list i m) else class_list j m)
  class_list-update j i f m = ground (arith, find-update j i f [] m)

  pub class_list-erase :
      (j i : ℕ) (m : Classes T)
      → IsSorted m
      → class_list j (erase i m) ≡ (if j == i then [] else class_list j m)
  class_list-erase j i m s = ground (arith, find-erase 0 j i m s)

  pub count-update :
      (i : ℕ) (f : ListPairs T → ListPairs T) (m : Classes T)
      → count (update i f [] m) + length (class_list i m) ≡ count m + length (f (class_list i m))
  unfolding update find
  count-update i f [] = omega arith
  count-update i f ((k, l) ∷ m) = ground (arith, count-update i f m)

  pub count-erase : (i : ℕ) (m : Classes T) → count (erase i m) + length (class_list i m) ≡ count m
  unfolding erase find
  count-erase i [] = omega arith
  count-erase i ((k, l) ∷ m) = ground (arith, count-erase i m)

  pub update-AllFilled :
      (i : ℕ) (f : ListPairs T → ListPairs T) (m : Classes T)
      → ((l : ListPairs T) → is_empty (f l) ≡ false)
      → AllFilled m
      → AllFilled (update i f [] m)
  unfolding update
  update-AllFilled i f [] h a = (h [], tt)
  update-AllFilled i f ((k, l) ∷ m) h a = ground (arith, h [], h l, update-AllFilled i f m h)

  pub erase-AllFilled : (i : ℕ) (m : Classes T) → AllFilled m → AllFilled (erase i m)
  unfolding erase
  erase-AllFilled i [] a = tt
  erase-AllFilled i ((k, l) ∷ m) a = ground (arith, erase-AllFilled i m)
