-- ===== src/PrioritizedQueue/SubQueue/Defs.antt =====
-- The state of `SubQueue` and its operations. A call that C++ leaves undefined (a read through
-- `end()`, a `pop_front` of an empty list) is `none`.
use my_git_hub.Common.{
  ℕ, ◌-◌, ◌%◌, Bool, false, ◌&&◌, Option, none, some, List, [], ◌∷◌, ◌++◌, ltb, ◌==◌, if◌then◌else◌,
  length, is_empty,
}
use my_git_hub.Common.Words.{add32, add64, sub64, u32_mod}
use my_git_hub.Common.OrderedMap.{OrderedMap, find, update, erase, first_key, next_key}

-- `std::pair<unsigned, T>`, a cost and an item, in a list
abbrev pub ListPairs {ℓ} : Type ℓ → Type ℓ
ListPairs T = List (ℕ × T)

-- The number of pairs that `f` takes out, and those that stay. The list is read from its end.
unfoldable pub filter_list_pairs {ℓ} : {T : Type ℓ} → (T → Bool) → ListPairs T → ℕ × ListPairs T
filter_list_pairs f [] = (0, [])
filter_list_pairs f ((c, x) ∷ l) =
    let (ret, l') = filter_list_pairs f l in if f x then (add32 ret 1, l') else (ret, (c, x) ∷ l')

abbrev pub Classes {ℓ} : Type ℓ → Type ℓ
Classes T = OrderedMap (ListPairs T)

-- `size` is the bit pattern of an `int64_t`; `cur` is the class that the iterator stands at.
pub record SubQueue {ℓ} (T : Type ℓ) : Type ℓ where
  pub q : Classes T
  pub tokens : ℕ
  pub max_tokens : ℕ
  pub size : ℕ
  pub cur : Option ℕ

-- `if (cur == q.end()) cur = q.begin();`
abbrev pub wrap {ℓ} : {V : Type ℓ} → Option ℕ → OrderedMap V → Option ℕ
wrap none m = first_key m
wrap (some k) m = some k

abbrev pub at_key : Option ℕ → ℕ → Bool
at_key none k = false
at_key (some j) k = j == k

-- `if (cur == i) ++cur`, where `i` is at `k` and is erased, with `m` behind it
abbrev pub pass_by {ℓ} : {V : Type ℓ} → Bool → Option ℕ → ℕ → OrderedMap V → Option ℕ
pass_by gone cur k m = if gone && at_key cur k then first_key m else cur

module _ {ℓ} {T : Type ℓ} where
  -- `SubQueue()`
  unfoldable pub fresh : SubQueue T
  fresh = record { q = []; tokens = 0; max_tokens = 0; size = 0; cur = none }

  -- `SubQueue(const SubQueue&)`
  unfoldable pub copy : SubQueue T → SubQueue T
  copy sq = record sq { cur = first_key sq.q }

  unfoldable pub set_max_tokens : ℕ → SubQueue T → SubQueue T
  set_max_tokens mt sq = record sq { max_tokens = mt }

  unfoldable pub put_tokens : ℕ → SubQueue T → SubQueue T
  put_tokens t sq =
      let sum = add32 sq.tokens t in
      record sq { tokens = if ltb sq.max_tokens sum then sq.max_tokens else sum }

  unfoldable pub take_tokens : ℕ → SubQueue T → SubQueue T
  take_tokens t sq = record sq { tokens = if ltb t sq.tokens then sq.tokens - t else 0 }

  unfoldable pub enqueue : ℕ → ℕ → T → SubQueue T → SubQueue T
  enqueue cl cost item sq =
      let q' = update cl (λ l. l ++ (cost, item) ∷ []) [] sq.q in
      record sq { q = q'; cur = wrap sq.cur q'; size = add64 sq.size 1 }

  unfoldable pub enqueue_front : ℕ → ℕ → T → SubQueue T → SubQueue T
  enqueue_front cl cost item sq =
      let q' = update cl (λ l. (cost, item) ∷ l) [] sq.q in
      record sq { q = q'; cur = wrap sq.cur q'; size = add64 sq.size 1 }

  abbrev pub head? : Option (ListPairs T) → Option (ℕ × T)
  head? none = none
  head? (some []) = none
  head? (some (e ∷ l)) = some e

  -- the list that `cur` stands at
  abbrev pub list_at : Option ℕ → Classes T → Option (ListPairs T)
  list_at none m = none
  list_at (some k) m = find k m

  unfoldable pub front : SubQueue T → Option (ℕ × T)
  front sq = head? (list_at sq.cur sq.q)

  -- `pop_front` where the item was the last of the class `k`: `q.erase(cur++)`
  abbrev pub erase_class : SubQueue T → ℕ → SubQueue T
  erase_class sq k =
      let q' = erase k sq.q in
      record sq { q = q'; cur = wrap (next_key k sq.q) q'; size = sub64 sq.size 1 }

  -- `pop_front` where `l` stays of the class `k`: `++cur`
  abbrev pub keep_class : SubQueue T → ℕ → ListPairs T → SubQueue T
  keep_class sq k l =
      let q' = update k (λ _. l) [] sq.q in
      record sq { q = q'; cur = wrap (next_key k q') q'; size = sub64 sq.size 1 }

  -- `pop_front` with `cur` at the class `k`, whose list is given
  unfoldable pub pop_class : SubQueue T → ℕ → Option (ListPairs T) → Option (SubQueue T)
  pop_class sq k none = none
  pop_class sq k (some []) = none
  pop_class sq k (some (e ∷ [])) = some (erase_class sq k)
  pop_class sq k (some (e ∷ e' ∷ l)) = some (keep_class sq k (e' ∷ l))

  unfoldable pub pop_at : SubQueue T → Option ℕ → Option (SubQueue T)
  unfolding pop_class
  pop_at sq none = none
  pop_at sq (some k) = pop_class sq k (find k sq.q)

  unfoldable pub pop_front : SubQueue T → Option (SubQueue T)
  unfolding pop_at
  pop_front sq = pop_at sq sq.cur

  -- `unsigned length()`
  unfoldable pub sub_length : SubQueue T → ℕ
  sub_length sq = sq.size % u32_mod

  unfoldable pub empty : SubQueue T → Bool
  empty sq = is_empty sq.q

  -- The loop of `remove_by_filter` over the classes that are left, with `cur` and `_size`.
  unfoldable pub filter_classes : (T → Bool) → Option ℕ → ℕ → Classes T → Option ℕ × ℕ × Classes T
  filter_classes f cur size [] = (cur, size, [])
  filter_classes f cur size ((k, l) ∷ m) =
      let (n, l') = filter_list_pairs f l in
      let (c, s, m') = filter_classes f (pass_by (is_empty l') cur k m) (sub64 size n) m in
      (c, s, if is_empty l' then m' else (k, l') ∷ m')

  unfoldable pub sub_remove_by_filter : (T → Bool) → SubQueue T → SubQueue T
  unfolding filter_classes
  sub_remove_by_filter f sq =
      let (c, s, q') = filter_classes f sq.cur sq.size sq.q in
      record sq { q = q'; cur = wrap c q'; size = s }

  -- `out->push_front` for the items from the last to the first
  unfoldable pub push_all : ListPairs T → List T → List T
  push_all [] out = out
  push_all ((c, x) ∷ l) out = x ∷ push_all l out

  -- A null `out` is `none`.
  abbrev pub push_out : ListPairs T → Option (List T) → Option (List T)
  push_out l none = none
  push_out l (some out) = some (push_all l out)

  -- `remove_by_class` once the class is looked up
  unfoldable pub drop_class :
      ℕ → Option (ListPairs T) → Option (List T) → SubQueue T → SubQueue T × Option (List T)
  drop_class k none out sq = (sq, out)
  drop_class k (some l) out sq =
      let cur' = if at_key sq.cur k then next_key k sq.q else sq.cur in
      let q' = erase k sq.q in
      (record sq { q = q'; cur = wrap cur' q'; size = sub64 sq.size (length l) }, push_out l out)

  unfoldable pub sub_remove_by_class :
      ℕ → Option (List T) → SubQueue T → SubQueue T × Option (List T)
  unfolding drop_class
  sub_remove_by_class k out sq = drop_class k (find k sq.q) out sq
