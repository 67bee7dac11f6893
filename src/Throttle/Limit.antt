-- ===== src/Throttle/Limit.antt =====
-- What is in flight never passes the limit.
use my_git_hub.Common.{
  ℕ, ◌^◌, ◌≡◌, Bool, true, false, ◌||◌, not, List, [], ◌∷◌, ◌++◌, arith, ◌==◌, is_empty,
  if◌then◌else◌, Bool-cases, inl, inr,
}
use my_git_hub.Common.Int.{ℤ, pos, ◌+ℤ◌, ◌≤ℤ◌, +ℤ_parts, -ℤ_parts, ◌-ℤ◌}
use my_git_hub.Throttle.Defs.{
  Waiter, Throttle, to_long, atomic_add, atomic_sub, is_zero, over_at, over, signal_front, enter,
  wait, get, get_or_fail, put, reset, wait_again, wake_in, wake, Call, waits, gets, takes,
  gets_or_fails, puts, resets_max, resets, wakes, step, run,
}
use my_git_hub.Throttle.Wakeups.{Fits, to_int_lem, to_long_lem}

-- A request within the limit.
abbrev pub Asked : ℤ → ℤ → Type 0
Asked max c = Fits c × (c ≤ℤ max)

abbrev pub AllAsked : ℤ → List Waiter → Type 0
AllAsked max [] = Unit {0}
AllAsked max (w ∷ ws) = Asked max w.c × AllAsked max ws

-- The count is between zero and the limit, which is set and far from the end of a `long`, and the
-- threads that wait ask for no more than the limit.
pub record InLimit (t : Throttle) : Type 0 where
  pub set : is_zero t.limit ≡ false
  pub small : t.limit ≤ℤ pos (2 ^ 62)
  pub not_negative : pos 0 ≤ℤ t.count
  pub below : t.count ≤ℤ t.limit
  pub asked : AllAsked t.limit t.conds

-- The calls of a client that asks for no more than the limit, gives back no more than the count, and
-- neither takes without asking nor changes the limit.
abbrev pub Fair : Throttle → Call → Type 0
Fair t (waits id m) = is_zero m ≡ true
Fair t (gets id c m) = Asked t.limit c × (is_zero m ≡ true)
Fair t (takes c) = ⊥
Fair t (gets_or_fails c) = Asked t.limit c
Fair t (puts c) = Fits c × (c ≤ℤ t.count)
Fair t (resets_max m) = ⊥
Fair t resets = Unit {0}
Fair t (wakes id) = Unit {0}

abbrev pub AllFair : Throttle → List Call → Type 0
AllFair t [] = Unit {0}
AllFair t (e ∷ es) = Fair t e × AllFair (step t e).0 es

fits_at :
    (max cur c : ℤ)
    → Asked max c
    → is_zero max ≡ false
    → over_at max cur c (cur +ℤ c) ≡ false
    → cur +ℤ c ≤ℤ max
unfolding ◌+ℤ◌
fits_at max cur c a n o = ground arith

-- What is granted keeps the count below the limit.
module _ (t : Throttle) (v : InLimit t) (c : ℤ) (a : Asked t.limit c) where
  sum_kept : to_long (t.count +ℤ c) ≡ t.count +ℤ c
  sum_kept =
      to_long_lem (t.count +ℤ c)
        (omega (arith, a, v.small, v.below, v.not_negative, +ℤ_parts t.count c))
        (omega (arith, a, v.small, v.below, v.not_negative, +ℤ_parts t.count c))

  granted :
      over t.limit t.count c ≡ false
      → (pos 0 ≤ℤ atomic_add c t.count) × (atomic_add c t.count ≤ℤ t.limit)
  unfolding over atomic_add
  granted o =
      rw (to_int_lem c a.0, sum_kept)
        (
          omega (arith, a, v.not_negative, +ℤ_parts t.count c),
          fits_at t.limit t.count c a v.set (rw sum_kept at o),
        )

  given_back : c ≤ℤ t.count → (pos 0 ≤ℤ atomic_sub c t.count) × (atomic_sub c t.count ≤ℤ t.limit)
  unfolding atomic_sub
  given_back k =
      let kept : to_long (t.count -ℤ c) ≡ t.count -ℤ c =
        to_long_lem (t.count -ℤ c)
          (omega (arith, a, k, v.small, v.below, v.not_negative, -ℤ_parts t.count c))
          (omega (arith, a, k, v.small, v.below, v.not_negative, -ℤ_parts t.count c)) in
      rw (to_int_lem c a.0, kept)
        (omega (arith, k, -ℤ_parts t.count c), omega (arith, a, v.below, -ℤ_parts t.count c))

AllAsked-signal_front :
    (max : ℤ) (ws : List Waiter) → AllAsked max ws → AllAsked max (signal_front ws)
AllAsked-signal_front max [] h = h
AllAsked-signal_front max (w ∷ ws) h = h

AllAsked-wait_again :
    (max : ℤ) (id : ℕ) (ws : List Waiter) → AllAsked max ws → AllAsked max (wait_again id ws)
AllAsked-wait_again max id [] h = h
AllAsked-wait_again max id (w ∷ ws) h = elim (Bool-cases (w.id == id)) [
  | inl y ↦ rw y h
  | inr n ↦ rw n (h.0, AllAsked-wait_again max id ws h.1)
]

AllAsked-append :
    (max : ℤ) (w : Waiter) (ws : List Waiter)
    → Asked max w.c
    → AllAsked max ws
    → AllAsked max (ws ++ w ∷ [])
AllAsked-append max w [] a h = (a, tt)
AllAsked-append max w (x ∷ ws) a h = (h.0, AllAsked-append max w ws a h.1)

-- Another count within the limit, and other threads that wait.
changed :
    (t : Throttle) (cur : ℤ) (ws : List Waiter)
    → InLimit t
    → (pos 0 ≤ℤ cur) × (cur ≤ℤ t.limit)
    → AllAsked t.limit ws
    → InLimit (record t { count = cur; conds = ws })
changed t cur ws v h a = record {
  set = v.set;
  small = v.small;
  not_negative = h.0;
  below = h.1;
  asked = a;
}

added :
    (t : Throttle) (v : InLimit t) (c : ℤ) (adds : Bool)
    → Asked t.limit c
    → over t.limit t.count c ≡ false
    → let cur = if adds then atomic_add c t.count else t.count in (pos 0 ≤ℤ cur) × (cur ≤ℤ t.limit)
added t v c true a o = granted t v c a o
added t v c false a o = (v.not_negative, v.below)

enter-InLimit :
    (id : ℕ) (c : ℤ) (adds : Bool) (t : Throttle)
    → Asked t.limit c
    → InLimit t
    → InLimit (enter id c adds t).0
unfolding enter
enter-InLimit id c adds t a v =
    elim (Bool-cases (over t.limit t.count c || not (is_empty t.conds))) [
      | inl y ↦
          let w : Waiter = record { id = id; c = c; adds = adds; signaled = false } in
          rw y (
            changed t t.count (t.conds ++ w ∷ []) v (v.not_negative, v.below)
              (AllAsked-append t.limit w t.conds a v.asked))
      | inr n ↦ rw n (changed t _ t.conds v (added t v c adds a (ground arith)) v.asked)
    ]

get_or_fail-InLimit :
    (c : ℤ) (t : Throttle) → Asked t.limit c → InLimit t → InLimit (get_or_fail c t).0
unfolding get_or_fail
get_or_fail-InLimit c t a v = elim (Bool-cases (over t.limit t.count c || not (is_empty t.conds))) [
  | inl y ↦ rw (y, v.set) v
  | inr n ↦ rw (n, v.set) (changed t _ t.conds v (granted t v c a (ground arith)) v.asked)
]

put-InLimit : (c : ℤ) (t : Throttle) → Fits c × (c ≤ℤ t.count) → InLimit t → InLimit (put c t).0
unfolding put
put-InLimit c t (fit, k) v = rw v.set (elim (Bool-cases (is_zero c)) [
  | inl y ↦ rw y v
  | inr n ↦ rw n (
      changed t _ (signal_front t.conds) v (given_back t v c (fit, omega (arith, k, v.below)) k)
        (AllAsked-signal_front t.limit t.conds v.asked))
])

wake_in-InLimit :
    (id : ℕ) (ws : List Waiter) (t : Throttle)
    → AllAsked t.limit ws
    → InLimit t
    → InLimit (wake_in id ws t).0
unfolding wake_in
wake_in-InLimit id [] t a v = v
wake_in-InLimit id (w ∷ ws) t a v = elim (Bool-cases (w.id == id)) [
  | inl y ↦ rw y (elim (Bool-cases (over t.limit t.count w.c)) [
    | inl k ↦ rw k (changed t t.count _ v (v.not_negative, v.below) a)
    | inr k ↦ rw k (
        changed t _ (signal_front ws) v (added t v w.c w.adds a.0 k)
          (AllAsked-signal_front t.limit ws a.1))
  ])
  | inr n ↦
      rw n (
        changed t t.count _ v (v.not_negative, v.below)
          (a.0, AllAsked-wait_again t.limit id ws a.1))
]

zero_request : (t : Throttle) → InLimit t → Asked t.limit (pos 0)
zero_request t v = ((omega arith, omega arith), omega (arith, v.not_negative, v.below))

step-InLimit : (t : Throttle) (e : Call) → Fair t e → InLimit t → InLimit (step t e).0
unfolding step wait get reset wake
step-InLimit t (waits id m) fair v =
    rw (v.set, fair) (enter-InLimit id (pos 0) false t (zero_request t v) v)
step-InLimit t (gets id c m) fair v = rw (v.set, fair.1) (enter-InLimit id c true t fair.0 v)
step-InLimit t (takes c) fair v = absurd fair
step-InLimit t (gets_or_fails c) fair v = get_or_fail-InLimit c t fair v
step-InLimit t (puts c) fair v = put-InLimit c t fair v
step-InLimit t (resets_max m) fair v = absurd fair
step-InLimit t resets fair v =
    changed t (pos 0) (signal_front t.conds) v (omega arith, omega (arith, v.not_negative, v.below))
      (AllAsked-signal_front t.limit t.conds v.asked)
step-InLimit t (wakes id) fair v = wake_in-InLimit id t.conds t v.asked v

-- With a limit other than 0 and of at most 2 ^ 62, a count between zero and the limit, and threads
-- that wait for no more than the limit, if any, at the start: the count is between zero and the limit
-- after any history of calls and wakeups in which no call changes the limit, `take` is not called,
-- each request is not negative, fits an `int` and is not above the limit, and what is given to `put`
-- is not negative, fits an `int` and is not above the count.
pub run-InLimit : (t : Throttle) (es : List Call) → AllFair t es → InLimit t → InLimit (run t es)
unfolding run
run-InLimit t [] fair v = v
run-InLimit t (e ∷ es) fair v = run-InLimit (step t e).0 es fair.1 (step-InLimit t e fair.0 v)
