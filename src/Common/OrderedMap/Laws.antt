-- ===== src/Common/OrderedMap/Laws.antt =====
-- The laws of the map operations.
use Prim.Native.Nat.{ℕ, suc, ◌≤◌, ◌<◌}
use mathlib.Core.Path.{◌≡◌, refl}
use mathlib.Core.Bool.{true, false}
use mathlib.Core.Logic.{◌≢◌, ◌⊎◌}
use mathlib.Core.Option.{none, some}
use mathlib.Core.List.{[], ◌∷◌}
use native.Mathlib.Omega.{arith}
use my_git_hub.Common.Tests.{ltb, ◌==◌, if◌then◌else◌}
use my_git_hub.Common.Lists.{get_or, is_some}
use my_git_hub.Common.OrderedMap.Defs.{OrderedMap, find, update, erase, next_key, SortedFrom}

module _ {ℓ} {V : Type ℓ} where
  pub find_below : (b i : ℕ) (m : OrderedMap V) → SortedFrom b m → i < b → find i m ≡ none
  unfolding find
  find_below b i [] s h = refl
  find_below b i ((k, v) ∷ m) s h = ground arith

  pub SortedFrom-mono : (a b : ℕ) (m : OrderedMap V) → a ≤ b → SortedFrom b m → SortedFrom a m
  SortedFrom-mono a b [] h s = tt
  SortedFrom-mono a b ((k, v) ∷ m) h s = (omega arith, s.1)

  pub find-update :
      (j i : ℕ) (f : V → V) (d : V) (m : OrderedMap V)
      → find j (update i f d m) ≡ (if j == i then some (f (get_or (find i m) d)) else find j m)
  unfolding find update
  find-update j i f d [] = ground arith
  find-update j i f d ((k, v) ∷ m) = ground (arith, find-update j i f d m)

  pub find-erase :
      (b j i : ℕ) (m : OrderedMap V)
      → SortedFrom b m
      → find j (erase i m) ≡ (if j == i then none else find j m)
  unfolding find erase
  find-erase b j i [] s = ground arith
  find-erase b j i ((k, v) ∷ m) s =
      ground (arith, find-erase (suc k) j i m s.1, find_below (suc k) j m s.1)

  pub update-SortedFrom :
      (b i : ℕ) (f : V → V) (d : V) (m : OrderedMap V)
      → b ≤ i
      → SortedFrom b m
      → SortedFrom b (update i f d m)
  unfolding update
  update-SortedFrom b i f d [] h s = (h, tt)
  update-SortedFrom b i f d ((k, v) ∷ m) h s = ground (arith, update-SortedFrom (suc k) i f d m)

  pub erase-SortedFrom : (b i : ℕ) (m : OrderedMap V) → SortedFrom b m → SortedFrom b (erase i m)
  unfolding erase
  erase-SortedFrom b i [] s = tt
  erase-SortedFrom b i ((k, v) ∷ m) s =
      ground (arith, erase-SortedFrom (suc k) i m s.1, SortedFrom-mono b (suc k) m)

  pub has_key-update :
      (j i : ℕ) (f : V → V) (d : V) (m : OrderedMap V)
      → (find j m ≢ none) ⊎ (j ≡ i)
      → is_some (find j (update i f d m)) ≡ true
  has_key-update j i f d m h = ground (arith, find-update j i f d m)

  -- Where `++` goes, there is an entry, and it lies behind.
  pub next_key-has_key :
      (b i : ℕ) (m : OrderedMap V) {j : ℕ}
      → SortedFrom b m
      → next_key i m ≡ some j
      → (is_some (find j m) ≡ true) × (i < j)
  unfolding find next_key
  next_key-has_key b i [] s e = cc
  next_key-has_key b i ((k, v) ∷ m) {j} s e =
      ground (arith, next_key-has_key (suc k) i m {j = j} s.1, find_below (suc k) j m s.1)

  pub next_key-erase :
      (b i : ℕ) (m : OrderedMap V) → SortedFrom b m → next_key i (erase i m) ≡ next_key i m
  unfolding next_key erase
  next_key-erase b i [] s = refl
  next_key-erase b i ((k, v) ∷ m) s = ground (arith, next_key-erase (suc k) i m s.1)

  find-above : (b i : ℕ) (m : OrderedMap V) {v : V} → SortedFrom b m → find i m ≡ some v → b ≤ i
  unfolding find
  find-above b i [] s e = cc
  find-above b i ((k, w) ∷ m) {v} s e = ground (arith, find-above (suc k) i m {v = v} s.1)

  -- An entry behind the first one.
  pub find-cons :
      (i k : ℕ) (w : V) (m : OrderedMap V) {v : V}
      → SortedFrom (suc k) m
      → find i m ≡ some v
      → find i ((k, w) ∷ m) ≡ some v
  unfolding find
  find-cons i k w m s e =
      let lt : k < i = find-above (suc k) i m s e in
      let below : ltb i k ≡ false = ground arith in
      let other : (i == k) ≡ false = ground arith in rw (below, other) e
