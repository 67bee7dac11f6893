-- ===== src/Common/OrderedMap/Defs.antt =====
-- What the program uses of `std::map` and its iterators; an iterator is the key that it stands at,
-- `none` for `end()`.
use Prim.Native.Nat.{ℕ, suc, ◌+◌, ◌≤◌}
use mathlib.Core.Option.{Option, none, some}
use mathlib.Core.List.{List, [], ◌∷◌}
use my_git_hub.Common.Tests.{ltb, ◌==◌, if◌then◌else◌}

abbrev pub OrderedMap {ℓ} : Type ℓ → Type ℓ
OrderedMap V = List (ℕ × V)

module _ {ℓ} {V : Type ℓ} where
  unfoldable pub find : ℕ → OrderedMap V → Option V
  find i [] = none
  find i ((k, v) ∷ m) = if ltb i k then none else if i == k then some v else find i m

  -- `m[i]`, made from `d` where it is missing, then changed by `f`
  unfoldable pub update : ℕ → (V → V) → V → OrderedMap V → OrderedMap V
  update i f d [] = (i, f d) ∷ []
  update i f d ((k, v) ∷ m) =
      if ltb i k
      then (i, f d) ∷ (k, v) ∷ m
      else if i == k
      then (k, f v) ∷ m
      else (k, v) ∷ update i f d m

  unfoldable pub erase : ℕ → OrderedMap V → OrderedMap V
  erase i [] = []
  erase i ((k, v) ∷ m) = if ltb i k then (k, v) ∷ m else if i == k then m else (k, v) ∷ erase i m

  -- `begin()`
  abbrev pub first_key : OrderedMap V → Option ℕ
  first_key [] = none
  first_key ((k, v) ∷ m) = some k

  -- where `++` takes an iterator at `i`
  unfoldable pub next_key : ℕ → OrderedMap V → Option ℕ
  next_key i [] = none
  next_key i ((k, v) ∷ m) = if ltb i k then some k else next_key i m

  -- `rbegin()`
  unfoldable pub last_entry : OrderedMap V → Option (ℕ × V)
  last_entry [] = none
  last_entry ((k, v) ∷ []) = some (k, v)
  last_entry ((k, v) ∷ e ∷ m) = last_entry (e ∷ m)

  -- Keys rise strictly, from `b` on.
  abbrev pub SortedFrom : ℕ → OrderedMap V → Type 0
  SortedFrom b [] = Unit {0}
  SortedFrom b ((k, v) ∷ m) = (b ≤ k) × SortedFrom (suc k) m

  abbrev pub IsSorted : OrderedMap V → Type 0
  IsSorted m = SortedFrom 0 m

  -- A loop over all the entries that changes the values in place.
  unfoldable pub map_values : (ℕ → V → V) → OrderedMap V → OrderedMap V
  map_values f [] = []
  map_values f ((k, v) ∷ m) = (k, f k v) ∷ map_values f m

  abbrev pub AllValues {κ} : (V → Type κ) → OrderedMap V → Type κ
  AllValues P [] = Unit
  AllValues P ((k, v) ∷ m) = P v × AllValues P m

  abbrev pub key_sum : OrderedMap V → ℕ
  key_sum [] = 0
  key_sum ((k, v) ∷ m) = k + key_sum m
