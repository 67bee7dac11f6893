-- ===== src/Timer/Tests.antt =====
-- Runs of trunk/src/common/timer.cpp.
use my_git_hub.Common.{ℕ, ◌≡◌, refl, none, some, [], ◌∷◌, arith}
use my_git_hub.Common.OrderedMap.{find, update}
use my_git_hub.Clock.Defs.{Utime, lt}
use my_git_hub.Timer.Defs.{
  Timer, new_timer, insert, erase_at, add_event_at, cancel_event, cancel_all_events, cancel_loop,
  run_due,
}
use my_git_hub.Timer.Schedule.{of_callback}
use my_git_hub.Timer.Valid.{IsValid, Sets, IsCancelled, add_event_at-Sets}
use my_git_hub.Timer.Cancel.{cancelled}
use my_git_hub.Timer.Fires.{Fired, run_due-Fired}

abbrev at_second : ℕ → Utime
at_second s = record { tv_sec = s; tv_nsec = 0 }

new_timer-IsValid : IsValid new_timer
unfolding find of_callback
new_timer-IsValid = record {
  sorted = tt;
  keys = tt;
  matched = λ cb. refl;
  owned = λ cb i e. tt;
  below = tt;
  known = λ cb i e. absurd (nothing e);
}
  where
    nothing : {a : ℕ} → none ≡ some a → ⊥
    nothing e = cc

abbrev one : Timer
one = (add_event_at (at_second 5) 11 new_timer).0

abbrev two : Timer
two = (add_event_at (at_second 3) 12 one).0

one-Sets : IsValid one × Sets 11 (at_second 5 ∷ []) new_timer one
unfolding find
one-Sets = add_event_at-Sets (at_second 5) 11 new_timer new_timer-IsValid refl

add_event_at-Sets_example : IsValid two × Sets 12 (at_second 3 ∷ []) one two
unfolding add_event_at find update
add_event_at-Sets_example = add_event_at-Sets (at_second 3) 12 one one-Sets.0 refl

two-IsValid : IsValid two
unfolding add_event_at find update
two-IsValid = (add_event_at-Sets (at_second 3) 12 one one-Sets.0 refl).0

cancelled_example :
    IsCancelled two two-IsValid 11 (cancel_event 11 two)
    × IsValid (cancel_all_events two)
    × ((cancel_all_events two).schedule ≡ [])
cancelled_example = cancelled two two-IsValid 11

run_due-Fired_example :
    Fired (at_second 4) two (run_due (λ cb t. t) 2 (at_second 4) two.schedule two)
unfolding add_event_at insert lt
run_due-Fired_example =
    run_due-Fired (λ cb t. t) (λ cb t. refl) (at_second 4) 2 two (omega arith) two-IsValid

-- A callback that is added twice keeps its second entry when it is cancelled.
twice :
    (cancel_event 11 (add_event_at (at_second 7) 11 one).0).0.schedule
    ≡ record { id = 1; time = at_second 7; callback = 11 } ∷ []
unfolding add_event_at cancel_event insert erase_at find update lt
twice = refl

all_cancelled : (cancel_all_events two).schedule ≡ []
unfolding add_event_at cancel_all_events cancel_loop insert erase_at update lt
all_cancelled = refl
