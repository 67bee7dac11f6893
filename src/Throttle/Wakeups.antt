-- ===== src/Throttle/Wakeups.antt =====
-- No wakeup is lost: the first waiter is signalled or has to wait.
use my_git_hub.Common.{
  ℕ, ◌-◌, ◌^◌, ◌≡◌, refl, ap, ◌∙◌, Bool, true, false, ◌&&◌, ◌||◌, not, List, [], ◌∷◌, ◌++◌, arith,
  ◌==◌, is_empty, Bool-cases, inl, inr,
}
use my_git_hub.Common.Int.{ℤ, pos, negsuc, ◌+ℤ◌, ◌≤ℤ◌, eqb_ℤ, +ℤ_parts}
use my_git_hub.Throttle.Defs.{
  Waiter, Throttle, to_int, to_long, atomic_add, is_zero, over_at, over, signal_front, set_limit,
  with_limit, enter, wait, get, take, get_or_fail, put, reset, reset_max, wake_in, wake, Call,
  waits, gets, takes, gets_or_fails, puts, resets_max, resets, wakes, step, run,
}

abbrev front_ready : ℤ → ℤ → List Waiter → Bool
front_ready max cur [] = true
front_ready max cur (w ∷ ws) = w.signaled || over max cur w.c

-- A first waiter that is not signalled has to wait.
abbrev pub NoLostWakeup : Throttle → Type 0
NoLostWakeup t = front_ready t.limit t.count t.conds ≡ true

-- What `take` is given: not negative, and within an `int`.
abbrev pub Fits : ℤ → Type 0
Fits c = (pos 0 ≤ℤ c) × (c ≤ℤ pos (2 ^ 31 - 1))

-- Numbers whose sums do not leave a `long`.
abbrev pub Modest : ℤ → Type 0
Modest z = (negsuc (2 ^ 61) ≤ℤ z) × (z ≤ℤ pos (2 ^ 61))

abbrev pub AllModest : List Waiter → Type 0
AllModest [] = Unit {0}
AllModest (w ∷ ws) = Modest w.c × AllModest ws

-- A `take` does not overflow, and neither do the sums that the waiting threads test after it.
abbrev pub TakesFit : Throttle → Call → Type 0
TakesFit t (takes c) = Fits c × Modest t.count × AllModest t.conds
TakesFit t (waits id m) = Unit {0}
TakesFit t (gets id c m) = Unit {0}
TakesFit t (gets_or_fails c) = Unit {0}
TakesFit t (puts c) = Unit {0}
TakesFit t (resets_max m) = Unit {0}
TakesFit t resets = Unit {0}
TakesFit t (wakes id) = Unit {0}

pub to_int_lem : (c : ℤ) → Fits c → to_int c ≡ c
unfolding to_int
to_int_lem (pos n) h = ground arith
to_int_lem (negsuc n) h = ground arith

pub to_long_lem : (z : ℤ) → negsuc (2 ^ 63 - 1) ≤ℤ z → z ≤ℤ pos (2 ^ 63 - 1) → to_long z ≡ z
unfolding to_long
to_long_lem (pos n) h k = ground arith
to_long_lem (negsuc n) h k = ground arith

pub atomic_add_lem : (c cur : ℤ) → Fits c → Modest cur → atomic_add c cur ≡ cur +ℤ c
unfolding atomic_add
atomic_add_lem c cur fit m =
    ap (λ d. to_long (cur +ℤ d)) (to_int_lem c fit)
    ∙ to_long_lem (cur +ℤ c) (omega (arith, fit, m, +ℤ_parts cur c))
        (omega (arith, fit, m, +ℤ_parts cur c))

-- A higher count makes nobody go on.
over_at_mono :
    (max cur d c : ℤ)
    → pos 0 ≤ℤ d
    → over_at max cur c (cur +ℤ c) ≡ true
    → over_at max (cur +ℤ d) c (cur +ℤ d +ℤ c) ≡ true
unfolding ◌+ℤ◌
over_at_mono max cur d c h w = ground arith

over_mono :
    (max cur d c : ℤ)
    → Fits d
    → Modest cur
    → Modest c
    → over max cur c ≡ true
    → over max (atomic_add d cur) c ≡ true
unfolding over
over_mono max cur d c fit m k w =
    let before : to_long (cur +ℤ c) ≡ cur +ℤ c =
      to_long_lem (cur +ℤ c) (omega (arith, m, k, +ℤ_parts cur c))
        (omega (arith, m, k, +ℤ_parts cur c)) in
    let after : to_long (cur +ℤ d +ℤ c) ≡ cur +ℤ d +ℤ c =
      to_long_lem (cur +ℤ d +ℤ c) (omega (arith, fit, m, k, +ℤ_parts cur d, +ℤ_parts (cur +ℤ d) c))
        (omega (arith, fit, m, k, +ℤ_parts cur d, +ℤ_parts (cur +ℤ d) c)) in
    rw (atomic_add_lem d cur fit m, after) (over_at_mono max cur d c fit.0 (rw before at w))

front_ready_mono :
    (max cur d : ℤ) (ws : List Waiter)
    → Fits d
    → Modest cur
    → AllModest ws
    → front_ready max cur ws ≡ true
    → front_ready max (atomic_add d cur) ws ≡ true
front_ready_mono max cur d [] fit m k r = refl
front_ready_mono max cur d (w ∷ ws) fit m k r = ground (arith, over_mono max cur d w.c fit m k.0)

signal_front-ready : (max cur : ℤ) (ws : List Waiter) → front_ready max cur (signal_front ws) ≡ true
signal_front-ready max cur [] = refl
signal_front-ready max cur (w ∷ ws) = refl

set_limit-NoLostWakeup : (m : ℤ) (t : Throttle) → NoLostWakeup t → NoLostWakeup (set_limit m t)
unfolding set_limit
set_limit-NoLostWakeup m t h = elim (Bool-cases (eqb_ℤ t.limit m)) [
  | inl y ↦ rw y h
  | inr n ↦ rw n (signal_front-ready m t.count t.conds)
]

with_limit-NoLostWakeup : (m : ℤ) (t : Throttle) → NoLostWakeup t → NoLostWakeup (with_limit m t)
with_limit-NoLostWakeup m t h = elim (Bool-cases (is_zero m)) [
  | inl y ↦ rw y h
  | inr n ↦ rw n (set_limit-NoLostWakeup m t h)
]

-- A thread that joins the queue behind `ws`.
joined-ready :
    (max cur : ℤ) (w : Waiter) (ws : List Waiter)
    → (over max cur w.c || not (is_empty ws)) ≡ true
    → front_ready max cur ws ≡ true
    → front_ready max cur (ws ++ w ∷ []) ≡ true
joined-ready max cur w [] e h = ground arith
joined-ready max cur w (x ∷ ws) e h = h

-- A thread that does not join the queue finds it empty.
passed-ready :
    (max cur c cur' : ℤ) (ws : List Waiter)
    → (over max cur c || not (is_empty ws)) ≡ false
    → front_ready max cur' ws ≡ true
passed-ready max cur c cur' [] e = refl
passed-ready max cur c cur' (w ∷ ws) e = absurd (ground arith)

enter-NoLostWakeup :
    (id : ℕ) (c : ℤ) (adds : Bool) (t : Throttle)
    → NoLostWakeup t
    → NoLostWakeup (enter id c adds t).0
unfolding enter
enter-NoLostWakeup id c adds t h =
    elim (Bool-cases (over t.limit t.count c || not (is_empty t.conds))) [
      | inl y ↦ rw y (
          joined-ready t.limit t.count (record { id = id; c = c; adds = adds; signaled = false })
            t.conds y h)
      | inr n ↦ rw n (passed-ready t.limit t.count c _ t.conds n)
    ]

get_or_fail-NoLostWakeup :
    (c : ℤ) (t : Throttle) → NoLostWakeup t → NoLostWakeup (get_or_fail c t).0
unfolding get_or_fail
get_or_fail-NoLostWakeup c t h =
    elim (Bool-cases (over t.limit t.count c || not (is_empty t.conds))) [
      | inl y ↦ rw y (elim (Bool-cases (is_zero t.limit)) [ inl z ↦ rw z h | inr z ↦ rw z h ])
      | inr k ↦ rw k (elim (Bool-cases (is_zero t.limit)) [
        | inl z ↦ rw z h
        | inr z ↦ rw z (passed-ready t.limit t.count c _ t.conds k)
      ])
    ]

take-NoLostWakeup :
    (c : ℤ) (t : Throttle) → TakesFit t (takes c) → NoLostWakeup t → NoLostWakeup (take c t).0
unfolding take
take-NoLostWakeup c t (fit, m, k) h = elim (Bool-cases (is_zero t.limit)) [
  | inl y ↦ rw y h
  | inr n ↦ rw n (front_ready_mono t.limit t.count c t.conds fit m k h)
]

put-NoLostWakeup : (c : ℤ) (t : Throttle) → NoLostWakeup t → NoLostWakeup (put c t).0
unfolding put
put-NoLostWakeup c t h = elim (Bool-cases (is_zero t.limit)) [
  | inl y ↦ rw y h
  | inr n ↦ rw n (elim (Bool-cases (is_zero c)) [
    | inl y ↦ rw y h
    | inr k ↦ rw k (signal_front-ready t.limit _ t.conds)
  ])
]

wake_in-NoLostWakeup :
    (id : ℕ) (ws : List Waiter) (t : Throttle)
    → t.conds ≡ ws
    → front_ready t.limit t.count ws ≡ true
    → NoLostWakeup (wake_in id ws t).0
unfolding wake_in
wake_in-NoLostWakeup id [] t e h = rw e refl
wake_in-NoLostWakeup id (w ∷ ws) t e h = elim (Bool-cases (w.id == id)) [
  | inl y ↦ rw y (elim (Bool-cases (over t.limit t.count w.c)) [
    | inl k ↦ rw k k
    | inr k ↦ rw k (signal_front-ready t.limit _ ws)
  ])
  | inr n ↦ rw n h
]

-- After every step of every thread, if no `take` overflows, a first waiter that is not
-- signalled has to wait.
pub step-NoLostWakeup :
    (t : Throttle) (e : Call) → TakesFit t e → NoLostWakeup t → NoLostWakeup (step t e).0
unfolding step wait get reset reset_max wake
step-NoLostWakeup t (waits id m) fit h = elim (Bool-cases (is_zero t.limit && is_zero m)) [
  | inl y ↦ rw y h
  | inr n ↦
      rw n (enter-NoLostWakeup id (pos 0) false (with_limit m t) (with_limit-NoLostWakeup m t h))
]
step-NoLostWakeup t (gets id c m) fit h = elim (Bool-cases (is_zero t.limit && is_zero m)) [
  | inl y ↦ rw y h
  | inr n ↦ rw n (enter-NoLostWakeup id c true (with_limit m t) (with_limit-NoLostWakeup m t h))
]
step-NoLostWakeup t (takes c) fit h = take-NoLostWakeup c t fit h
step-NoLostWakeup t (gets_or_fails c) fit h = get_or_fail-NoLostWakeup c t h
step-NoLostWakeup t (puts c) fit h = put-NoLostWakeup c t h
step-NoLostWakeup t resets fit h = signal_front-ready t.limit (pos 0) t.conds
step-NoLostWakeup t (resets_max m) fit h = set_limit-NoLostWakeup m t h
step-NoLostWakeup t (wakes id) fit h = wake_in-NoLostWakeup id t.conds t refl h

abbrev pub AllTakesFit : Throttle → List Call → Type 0
AllTakesFit t [] = Unit {0}
AllTakesFit t (e ∷ es) = TakesFit t e × AllTakesFit (step t e).0 es

-- After any history of steps, a first waiter that is not signalled has to wait, if it was so at the
-- start, and if each `take` of the history is given what is not negative and fits an `int`, at a
-- count and with waiting requests between -2 ^ 61 - 1 and 2 ^ 61, so that no sum overflows.
pub run-NoLostWakeup :
    (t : Throttle) (es : List Call) → AllTakesFit t es → NoLostWakeup t → NoLostWakeup (run t es)
unfolding run
run-NoLostWakeup t [] fit h = h
run-NoLostWakeup t (e ∷ es) fit h =
    run-NoLostWakeup (step t e).0 es fit.1 (step-NoLostWakeup t e fit.0 h)
