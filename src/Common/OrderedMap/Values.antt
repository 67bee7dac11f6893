-- ===== src/Common/OrderedMap/Values.antt =====
-- Laws on the values of a map, its last entry and the sum of its keys.
use Prim.Native.Nat.{ℕ, suc, ◌≤◌, ◌<◌, ◌+◌}
use mathlib.Core.Path.{◌≡◌, refl}
use mathlib.Core.Bool.{false}
use mathlib.Core.Option.{Option, none, some}
use mathlib.Core.Option
use mathlib.Core.List.{[], ◌∷◌}
use native.Mathlib.Omega.{arith}
use my_git_hub.Common.Tests.{if◌then◌else◌}
use my_git_hub.Common.Lists.{is_some, is_empty}
use my_git_hub.Common.OrderedMap.Defs.{
  OrderedMap, find, update, erase, last_entry, map_values, SortedFrom, AllValues, key_sum,
}

module _ {ℓ κ} {V : Type ℓ} (P : V → Type κ) where
  pub AllValues-find : (i : ℕ) (m : OrderedMap V) {v : V} → AllValues P m → find i m ≡ some v → P v
  unfolding find
  AllValues-find i [] a e = cc
  AllValues-find i ((k, w) ∷ m) {v} a e = ground (arith, AllValues-find i m {v = v} a.1)

  pub update-AllValues :
      (i : ℕ) (f : V → V) (d : V) (m : OrderedMap V)
      → P (f d)
      → ((v : V) → P v → P (f v))
      → AllValues P m
      → AllValues P (update i f d m)
  unfolding update
  update-AllValues i f d [] h g a = (h, tt)
  update-AllValues i f d ((k, v) ∷ m) h g a = ground (arith, g v, update-AllValues i f d m h g a.1)

  -- Where the key is new, only the default is changed.
  pub update-AllValues_new :
      (i : ℕ) (f : V → V) (d : V) (m : OrderedMap V)
      → find i m ≡ none
      → P (f d)
      → AllValues P m
      → AllValues P (update i f d m)
  unfolding update find
  update-AllValues_new i f d [] e h a = (h, tt)
  update-AllValues_new i f d ((k, v) ∷ m) e h a =
      ground (arith, λ (x : find i m ≡ none). update-AllValues_new i f d m x h a.1)

  pub erase-AllValues : (i : ℕ) (m : OrderedMap V) → AllValues P m → AllValues P (erase i m)
  unfolding erase
  erase-AllValues i [] a = tt
  erase-AllValues i ((k, v) ∷ m) a = ground (arith, erase-AllValues i m a.1)

  pub map_values-AllValues :
      (f : ℕ → V → V) (m : OrderedMap V)
      → ((k : ℕ) (v : V) → P v → P (f k v))
      → AllValues P m
      → AllValues P (map_values f m)
  unfolding map_values
  map_values-AllValues f [] h a = tt
  map_values-AllValues f ((k, v) ∷ m) h a = (h k v a.0, map_values-AllValues f m h a.1)

module _ {ℓ} {V : Type ℓ} where
  pub find-map_values :
      (f : ℕ → V → V) (i : ℕ) (m : OrderedMap V)
      → find i (map_values f m) ≡ Option.map (f i) (find i m)
  unfolding find map_values
  find-map_values f i [] = refl
  find-map_values f i ((k, v) ∷ m) = ground (arith, find-map_values f i m)

  pub map_values-SortedFrom :
      (f : ℕ → V → V) (b : ℕ) (m : OrderedMap V) → SortedFrom b m → SortedFrom b (map_values f m)
  unfolding map_values
  map_values-SortedFrom f b [] s = tt
  map_values-SortedFrom f b ((k, v) ∷ m) s = (s.0, map_values-SortedFrom f (suc k) m s.1)

  pub key_sum-map_values : (f : ℕ → V → V) (m : OrderedMap V) → key_sum (map_values f m) ≡ key_sum m
  unfolding map_values
  key_sum-map_values f [] = refl
  key_sum-map_values f ((k, v) ∷ m) = omega (arith, key_sum-map_values f m)

  pub update-update :
      (i : ℕ) (f g : V → V) (d : V) (m : OrderedMap V)
      → update i g d (update i f d m) ≡ update i (λ v. g (f v)) d m
  unfolding update
  update-update i f g d [] = ground arith
  update-update i f g d ((k, v) ∷ m) = ground (arith, update-update i f g d m)

  pub is_empty-update :
      (i : ℕ) (f : V → V) (d : V) (m : OrderedMap V) → is_empty (update i f d m) ≡ false
  unfolding update
  is_empty-update i f d [] = refl
  is_empty-update i f d ((k, v) ∷ m) = ground arith

  pub key_sum-erase :
      (i : ℕ) (m : OrderedMap V)
      → key_sum (erase i m) + (if is_some (find i m) then i else 0) ≡ key_sum m
  unfolding erase find
  key_sum-erase i [] = refl
  key_sum-erase i ((k, v) ∷ m) = ground (arith, key_sum-erase i m)

  pub key_sum-update :
      (i : ℕ) (f : V → V) (d : V) (m : OrderedMap V)
      → key_sum (update i f d m) ≡ key_sum m + (if is_some (find i m) then 0 else i)
  unfolding update find
  key_sum-update i f d [] = ground arith
  key_sum-update i f d ((k, v) ∷ m) = ground (arith, key_sum-update i f d m)

  -- `rbegin()` stands at the greatest key.
  pub last_entry_lem :
      (b : ℕ) (e : ℕ × V) (m : OrderedMap V)
      → SortedFrom b (e ∷ m)
      → (i : ℕ) × (v : V) × (last_entry (e ∷ m) ≡ some (i, v))
        × (find i (e ∷ m) ≡ some v)
        × ((j : ℕ) → i < j → find j (e ∷ m) ≡ none)
        × (b ≤ i)
  unfolding last_entry find
  last_entry_lem b (k, v) [] s = (k, v, refl, ground arith, λ j h. ground arith, s.0)
  last_entry_lem b (k, v) (e ∷ m) s =
      let (i, w, h₁, h₂, h₃, h₄) = last_entry_lem (suc k) e m s.1 in
      (i, w, h₁, ground arith, λ j h. ground (arith, h₃ j), omega (arith, s.0))
