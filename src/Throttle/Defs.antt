-- ===== src/Throttle/Defs.antt =====
-- The state of a `Throttle` with the threads that stand in `_wait`, and its methods. A method that
-- may block is two steps: the call, and `wake`, where the thread comes back from `cond->wait`. Each
-- step holds `_lock`; the unlocked test of `_max` is taken with the call that it guards.
use my_git_hub.Common.{
  ℕ, ◌+◌, ◌-◌, ◌/◌, ◌%◌, ◌^◌, Bool, true, false, ◌&&◌, ◌||◌, not, List, [], ◌∷◌, ◌++◌, ltb, ◌==◌,
  if◌then◌else◌, is_empty,
}
use my_git_hub.Common.Int.{ℤ, pos, negsuc, ◌+ℤ◌, ◌-ℤ◌, leb_ℤ, ltb_ℤ, eqb_ℤ}

-- A `Cond` of `_conds` and the thread that waits on it: the `c` of its `_wait(c)`, whether `get`
-- called, which adds `c` then, and whether the condition was signalled since the thread waits.
pub record Waiter : Type 0 where
  pub id : ℕ
  pub c : ℤ
  pub adds : Bool
  pub signaled : Bool

-- `_count` and `_max` are 64 bits wide (`atomic_t` is a `long`).
pub record Throttle : Type 0 where
  pub count : ℤ
  pub limit : ℤ
  pub conds : List Waiter

-- The constructor sets the limit and leaves the count as it finds it.
unfoldable pub construct : ℤ → ℤ → Throttle
construct found m = record { count = found; limit = m; conds = [] }

-- The destructor deletes the conditions; it wakes nobody.
unfoldable pub destroy : Throttle → Throttle
destroy t = record t { conds = [] }

-- The conversion of an `int64_t` to the `int` that `atomic_add` and `atomic_sub` take.
unfoldable pub to_int : ℤ → ℤ
to_int (pos n) = let r = n % 2 ^ 32 in if ltb r (2 ^ 31) then pos r else negsuc (2 ^ 32 - r - 1)
to_int (negsuc n) = let r = n % 2 ^ 32 in if ltb r (2 ^ 31) then negsuc r else pos (2 ^ 32 - r - 1)

-- What a `long` keeps of a sum.
unfoldable pub to_long : ℤ → ℤ
to_long (pos n) = let r = n % 2 ^ 64 in if ltb r (2 ^ 63) then pos r else negsuc (2 ^ 64 - r - 1)
to_long (negsuc n) = let r = n % 2 ^ 64 in if ltb r (2 ^ 63) then negsuc r else pos (2 ^ 64 - r - 1)

-- `atomic_add(c, &count)` and `atomic_sub(c, &count)`: the value after it
unfoldable pub atomic_add : ℤ → ℤ → ℤ
unfolding ◌+ℤ◌ to_int to_long
atomic_add c count = to_long (count +ℤ to_int c)

unfoldable pub atomic_sub : ℤ → ℤ → ℤ
unfolding ◌-ℤ◌ to_int to_long
atomic_sub c count = to_long (count -ℤ to_int c)

abbrev pub is_zero : ℤ → Bool
is_zero z = eqb_ℤ z (pos 0)

-- The test of `_should_wait(c)`, where `sum` is `cur + c`
abbrev pub over_at : ℤ → ℤ → ℤ → ℤ → Bool
over_at max cur c sum =
    not (is_zero max) && ((leb_ℤ c max && ltb_ℤ max sum) || (leb_ℤ max c && ltb_ℤ max cur))

-- `_should_wait(c)`, of the values that it reads. The sum of two `int64_t`s is taken to wrap, which
-- the language leaves open.
unfoldable pub over : ℤ → ℤ → ℤ → Bool
unfolding ◌+ℤ◌ to_long
over max cur c = over_at max cur c (to_long (cur +ℤ c))

abbrev pub should_wait : Throttle → ℤ → Bool
should_wait t c = over t.limit t.count c

-- Division of an `int64_t` by 2 goes towards zero.
abbrev pub half : ℤ → ℤ
half (pos n) = pos (n / 2)
half (negsuc n) = if n == 0 then pos 0 else negsuc ((n + 1) / 2 - 1)

unfoldable pub past_midpoint : Throttle → Bool
past_midpoint t = leb_ℤ (half t.limit) t.count

-- `if (!_conds.empty()) _conds.front()->signal();`
abbrev pub signal_front : List Waiter → List Waiter
signal_front [] = []
signal_front (w ∷ ws) = record w { signaled = true } ∷ ws

-- `_reset_max(m)`
unfoldable pub set_limit : ℤ → Throttle → Throttle
set_limit m t = if eqb_ℤ t.limit m then t else record t { conds = signal_front t.conds; limit = m }

-- What a call returns, or that it blocks.
pub data Reply : Type 0 where
  bool : Bool → Reply
  int : ℤ → Reply
  blocked void : Reply

-- `if (m) _reset_max(m);`
abbrev pub with_limit : ℤ → Throttle → Throttle
with_limit m t = if is_zero m then t else set_limit m t

-- `_wait(c)`, and in `get` the `atomic_add` behind it: the thread goes on or joins the queue.
unfoldable pub enter : ℕ → ℤ → Bool → Throttle → Throttle × Reply
unfolding atomic_add over
enter id c adds t =
    if should_wait t c || not (is_empty t.conds)
    then (
      record t { conds = t.conds ++ record { id = id; c = c; adds = adds; signaled = false } ∷ [] },
      blocked,
    )
    else (record t { count = if adds then atomic_add c t.count else t.count }, bool false)

unfoldable pub wait : ℕ → ℤ → Throttle → Throttle × Reply
unfolding set_limit enter
wait id m t =
    if is_zero t.limit && is_zero m
    then (t, bool false)
    else enter id (pos 0) false (with_limit m t)

unfoldable pub get : ℕ → ℤ → ℤ → Throttle → Throttle × Reply
unfolding set_limit enter
get id c m t =
    if is_zero t.limit && is_zero m then (t, bool false) else enter id c true (with_limit m t)

unfoldable pub take : ℤ → Throttle → Throttle × Reply
unfolding atomic_add
take c t =
    if is_zero t.limit
    then (t, int (pos 0))
    else let count' = atomic_add c t.count in (record t { count = count' }, int count')

unfoldable pub get_or_fail : ℤ → Throttle → Throttle × Reply
unfolding atomic_add over
get_or_fail c t =
    if is_zero t.limit
    then (t, bool true)
    else if should_wait t c || not (is_empty t.conds)
    then (t, bool false)
    else (record t { count = atomic_add c t.count }, bool true)

unfoldable pub put : ℤ → Throttle → Throttle × Reply
unfolding atomic_sub
put c t =
    if is_zero t.limit
    then (t, int (pos 0))
    else if is_zero c
    then (t, int t.count)
    else let count' = atomic_sub c t.count in
      (record t { conds = signal_front t.conds; count = count' }, int count')

unfoldable pub reset : Throttle → Throttle × Reply
reset t = (record t { conds = signal_front t.conds; count = pos 0 }, void)

unfoldable pub reset_max : ℤ → Throttle → Throttle × Reply
unfolding set_limit
reset_max m t = (set_limit m t, void)

-- A thread behind the first one looks at its condition and waits again.
abbrev pub wait_again : ℕ → List Waiter → List Waiter
wait_again id [] = []
wait_again id (w ∷ ws) =
    if w.id == id then record w { signaled = false } ∷ ws else w ∷ wait_again id ws

-- The thread of the condition `id` comes back from `cond->wait`, signalled or not: it waits again,
-- or leaves the queue, signals the next and goes on.
unfoldable pub wake_in : ℕ → List Waiter → Throttle → Throttle × Reply
unfolding atomic_add over
wake_in id [] t = (t, void)
wake_in id (w ∷ ws) t =
    if w.id == id
    then if should_wait t w.c
      then (record t { conds = record w { signaled = false } ∷ ws }, blocked)
      else (
        record t {
          conds = signal_front ws;
          count = if w.adds then atomic_add w.c t.count else t.count;
        },
        bool true,
      )
    else (record t { conds = w ∷ wait_again id ws }, blocked)

unfoldable pub wake : ℕ → Throttle → Throttle × Reply
unfolding wake_in
wake id t = wake_in id t.conds t

-- A step of some thread: a call, or its return from a wait. The first number is the thread's `Cond`.
pub data Call : Type 0 where
  waits : ℕ → ℤ → Call
  gets : ℕ → ℤ → ℤ → Call
  takes gets_or_fails puts resets_max : ℤ → Call
  resets : Call
  wakes : ℕ → Call

unfoldable pub step : Throttle → Call → Throttle × Reply
unfolding wait get take get_or_fail put reset reset_max wake
step t (waits id m) = wait id m t
step t (gets id c m) = get id c m t
step t (takes c) = take c t
step t (gets_or_fails c) = get_or_fail c t
step t (puts c) = put c t
step t (resets_max m) = reset_max m t
step t resets = reset t
step t (wakes id) = wake id t

unfoldable pub run : Throttle → List Call → Throttle
unfolding step
run t [] = t
run t (e ∷ es) = run (step t e).0 es
