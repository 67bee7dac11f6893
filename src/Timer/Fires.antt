-- ===== src/Timer/Fires.antt =====
-- What the thread of a timer does when it is awake: it completes what is due, in the order of the times.
use my_git_hub.Common.{
  ℕ, zero, suc, ◌≤◌, ◌≡◌, refl, sym, ap, ◌∙◌, subst, true, false, Option, none, some, List, [], ◌∷◌,
  ◌++◌, ◌||◌, ◌&&◌, ◌==◌, ltb, leb, if◌then◌else◌, Bool, append-nil, append_assoc, arith, length,
  Bool-cases, Option-cases, inl, inr, ==_iff,
}
use my_git_hub.Common.OrderedMap.{find, erase}
use my_git_hub.Clock.Defs.{Utime, lt, gt}
use my_git_hub.Timer.Defs.{Entry, Timer, erase_at, take_first, is_due, complete, fired, run_due}
use my_git_hub.Timer.Schedule.{of_callback, NoneBefore, Sorted}
use my_git_hub.Timer.Valid.{entry_id, as_list, IsValid, removed-IsValid}

-- Whether a time is not after `now`: an earlier second, or the same second and not a later nanosecond.
abbrev pub not_after : Utime → Utime → Bool
not_after now time =
    ltb time.tv_sec now.tv_sec || time.tv_sec == now.tv_sec && leb time.tv_nsec now.tv_nsec

-- The callbacks of the entries that are due at `now`, and the other entries.
abbrev pub due : Utime → List Entry → List ℕ
due now [] = []
due now (e ∷ xs) = if not_after now e.time then e.callback ∷ due now xs else due now xs

abbrev pub not_due : Utime → List Entry → List Entry
not_due now [] = []
not_due now (e ∷ xs) = if not_after now e.time then not_due now xs else e ∷ not_due now xs

later :
    (now : Utime) (e x : Entry)
    → not_after now e.time ≡ false
    → lt x.time e.time ≡ false
    → not_after now x.time ≡ false
unfolding lt
later now e x h k = ground arith

is_due_lem : (now : Utime) (e : Entry) → is_due now e ≡ not_after now e.time
unfolding lt gt
is_due_lem now e = ground arith

none_due :
    (now : Utime) (e : Entry) (xs : List Entry)
    → not_after now e.time ≡ false
    → NoneBefore e xs
    → (due now xs ≡ []) × (not_due now xs ≡ xs)
none_due now e [] h n = (refl, refl)
none_due now e (x ∷ xs) h n =
    let (a, b) = none_due now e xs h n.1 in rw (later now e x h n.0) (a, ap (◌∷◌ x) b)

-- The first entry of a valid timer is that of its iterator.
first_found :
    (t : Timer) (e : Entry) (xs : List Entry)
    → IsValid t
    → t.schedule ≡ e ∷ xs
    → find e.callback t.events ≡ some e.id
unfolding of_callback
first_found t e xs v s =
    let own : (e.callback == e.callback) ≡ true = (==_iff e.callback e.callback).1 refl in
    let listed : of_callback entry_id e.callback (e ∷ xs) ≡ as_list (find e.callback t.events) =
      subst (λ z. of_callback entry_id e.callback z ≡ as_list (find e.callback t.events)) s
        (v.matched e.callback) in
    elim (Option-cases (find e.callback t.events)) [
      | inl k ↦ absurd (nothing (rw own at listed ∙ ap as_list k))
      | inr (i, k) ↦ k ∙ ap some (sym (head (rw own at listed ∙ ap as_list k)))
    ]
  where
    nothing : {a : ℕ} {as' : List ℕ} → a ∷ as' ≡ [] → ⊥
    nothing e = cc

    head : {a b : ℕ} {as' : List ℕ} → a ∷ as' ≡ b ∷ [] → a ≡ b
    head e = cc

take_first-IsValid :
    (t : Timer) (e : Entry) (xs : List Entry)
    → IsValid t
    → t.schedule ≡ e ∷ xs
    → IsValid (complete (λ cb t'. t') e.callback (take_first e xs t))
unfolding erase_at
take_first-IsValid t e xs v s =
    let own : (e.id == e.id) ≡ true = (==_iff e.id e.id).1 refl in
    let left : erase_at e.id t.schedule ≡ xs = ap (erase_at e.id) s ∙ rw own refl in
    let freed' = t.freed ++ e.callback ∷ [] in
    subst
      (λ z. IsValid (record t { schedule = z; events = erase e.callback t.events; freed = freed' }))
      left (removed-IsValid t v e.callback e.id freed' (first_found t e xs v s))

-- What a run of the inner loop on a timer comes to.
abbrev pub Fired : Utime → Timer → Option (List ℕ × Timer) → Type 0
Fired now t none = ⊥
Fired now t (some r) =
    (r.0 ≡ due now t.schedule)
    × (r.1.schedule ≡ not_due now t.schedule)
    × (r.1.freed ≡ t.freed ++ due now t.schedule)
    × IsValid r.1

module _ (finish : ℕ → Timer → Timer) (quiet : (cb : ℕ) (t : Timer) → finish cb t ≡ t)
    (now : Utime) where
  one_more :
      (t : Timer) (e : Entry) (xs : List Entry) (o : Option (List ℕ × Timer))
      → t.schedule ≡ e ∷ xs
      → not_after now e.time ≡ true
      → Fired now (complete (λ cb t'. t') e.callback (take_first e xs t)) o
      → Fired now t (fired finish e.callback o)
  one_more t e xs none s y h = absurd h
  one_more t e xs (some r) s y h =
      rw (s, y)
        (
          ap (◌∷◌ e.callback) h.0,
          h.1,
          h.2 ∙ append_assoc t.freed (e.callback ∷ []) (due now xs),
          h.3,
        )

  stopped_at_once :
      (t : Timer)
      → due now t.schedule ≡ []
      → not_due now t.schedule ≡ t.schedule
      → IsValid t
      → Fired now t (some ([], t))
  stopped_at_once t a b v = (sym a, sym b, sym (ap (λ z. t.freed ++ z) a ∙ append-nil t.freed), v)

  run_due-Fired_from :
      (rounds : ℕ) (xs : List Entry) (t : Timer)
      → length xs ≤ rounds
      → t.schedule ≡ xs
      → IsValid t
      → Fired now t (run_due finish rounds now xs t)
  unfolding run_due
  run_due-Fired_from rounds [] t h s v =
      stopped_at_once t (ap (due now) s) (ap (not_due now) s ∙ sym s) v
  run_due-Fired_from zero (e ∷ xs) t h s v = absurd (omega arith)
  run_due-Fired_from (suc rounds) (e ∷ xs) t h s v = elim (Bool-cases (not_after now e.time)) [
    | inl y ↦
        let t' = complete (λ cb t'. t') e.callback (take_first e xs t) in
        rw (is_due_lem now e, y, quiet e.callback (take_first e xs t))
          (one_more t e xs (run_due finish rounds now xs t') s y
            (run_due-Fired_from rounds xs t' (omega arith) refl (take_first-IsValid t e xs v s)))
    | inr n ↦
        let sorted : Sorted (e ∷ xs) = subst Sorted s v.sorted in
        let (none_now, all_left) = none_due now e xs n sorted.0 in
        rw (is_due_lem now e, n)
          (stopped_at_once t (ap (due now) s ∙ rw n none_now)
            (ap (not_due now) s ∙ rw n (ap (◌∷◌ e) all_left) ∙ sym s) v)
  ]

  -- Where what the callbacks do in `finish` makes no call of the timer, the inner loop of `timer_thread`
  -- on a valid timer comes to an end, one round for each entry being enough: it completes, and so
  -- deletes, the callbacks of all the entries whose time is not after `now`, by seconds and then by
  -- nanoseconds, and no others, in the order of their times, takes them off, and leaves a valid timer.
  pub run_due-Fired :
      (rounds : ℕ) (t : Timer)
      → length t.schedule ≤ rounds
      → IsValid t
      → Fired now t (run_due finish rounds now t.schedule t)
  run_due-Fired rounds t h v = run_due-Fired_from rounds t.schedule t h refl v
