-- ===== src/Timer/Cancel.antt =====
-- What `cancel_event` and `cancel_all_events` leave.
use my_git_hub.Common.{
  ℕ, ◌≡◌, refl, ap, ◌∙◌, subst, true, false, some, List, [], ◌∷◌, arith, ltb, ◌==◌, ==_iff,
}
use my_git_hub.Common.OrderedMap.{OrderedMap, find, erase}
use my_git_hub.Timer.Defs.{
  Entry, Timer, erase_at, free, cancel_event, cancel_loop, cancel_all_events,
}
use my_git_hub.Timer.Schedule.{of_callback}
use my_git_hub.Timer.Valid.{
  entry_id, as_list, IsValid, removed-IsValid, IsCancelled, cancel_event-IsCancelled,
}

nothing_left : (xs : List Entry) → ((cb : ℕ) → of_callback entry_id cb xs ≡ []) → xs ≡ []
unfolding of_callback
nothing_left [] h = refl
nothing_left (x ∷ xs) h =
    let own : (x.callback == x.callback) ≡ true = (==_iff x.callback x.callback).1 refl in
    absurd (nonempty (rw own at (h x.callback)))
  where
    nonempty : {a : ℕ} {as' : List ℕ} → a ∷ as' ≡ [] → ⊥
    nonempty e = cc

cancel_loop-Valid :
    (m : OrderedMap ℕ) (t : Timer)
    → IsValid t
    → t.events ≡ m
    → IsValid (cancel_loop m t) × ((cancel_loop m t).events ≡ [])
unfolding cancel_loop find erase
cancel_loop-Valid [] t v e = (subst (λ z. IsValid (record t { events = z })) e v, refl)
cancel_loop-Valid ((cb, i) ∷ m) t v e =
    let not_less : ltb cb cb ≡ false = ground arith in
    let own : (cb == cb) ≡ true = (==_iff cb cb).1 refl in
    let first : find cb t.events ≡ some i = ap (find cb) e ∙ rw (not_less, own) refl in
    let rest : erase cb t.events ≡ m = ap (erase cb) e ∙ rw (not_less, own) refl in
    cancel_loop-Valid m _
      (subst
        (λ z.
          IsValid
            (record t { schedule = erase_at i t.schedule; events = z; freed = free cb t.freed }))
        rest (removed-IsValid t v cb i (free cb t.freed) first))
      refl

-- Of a valid timer, `cancel_event` leaves the callback without a time, the others with theirs, and a valid
-- timer, and returns whether the callback was scheduled; `cancel_all_events` leaves a valid timer with
-- nothing scheduled.
pub cancelled :
    (t : Timer) (v : IsValid t) (cb : ℕ)
    → IsCancelled t v cb (cancel_event cb t)
      × IsValid (cancel_all_events t)
      × ((cancel_all_events t).schedule ≡ [])
unfolding cancel_all_events find
cancelled t v cb =
    let (valid, empty) = cancel_loop-Valid t.events t v refl in
    (
      cancel_event-IsCancelled t v cb,
      valid,
      nothing_left (cancel_loop t.events t).schedule
          (λ other. valid.matched other ∙ ap (λ m. as_list (find other m)) empty),
    )
