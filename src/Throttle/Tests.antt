-- ===== src/Throttle/Tests.antt =====
-- Runs of trunk/src/common/throttle.cpp with a limit of 10 and two threads.
use my_git_hub.Common.{◌≡◌, refl, true, false, List, [], ◌∷◌, arith, length}
use my_git_hub.Common.Int.{pos}
use my_git_hub.Throttle.Defs.{
  construct, destroy, Throttle, enter, get, put, reset_max, over, Call, gets, takes, puts, wakes,
  step, run,
}
use my_git_hub.Throttle.Wakeups.{NoLostWakeup, step-NoLostWakeup, run-NoLostWakeup}
use my_git_hub.Throttle.Limit.{InLimit, run-InLimit}
use my_git_hub.Throttle.Drain.{drain, drain-reset_max}

abbrev idle : Throttle
idle = record { count = pos 4; limit = pos 10; conds = [] }

-- Thread 1 waits for 8 more.
abbrev one_waits : Throttle
one_waits = record idle { conds = record { id = 1; c = pos 8; adds = true; signaled = false } ∷ [] }

-- 3 were given back, and thread 1 is signalled.
abbrev given_back : Throttle
given_back = record {
  count = pos 1;
  limit = pos 10;
  conds = record { id = 1; c = pos 8; adds = true; signaled = true } ∷ [];
}

abbrev history : List Call
history = gets 1 (pos 8) (pos 0) ∷ takes (pos 2) ∷ puts (pos 5) ∷ wakes 1 ∷ []

idle_at_first : construct (pos 4) (pos 10) ≡ idle
unfolding construct
idle_at_first = refl

none_left : (destroy one_waits).conds ≡ []
unfolding destroy
none_left = refl

waits_then_goes : (run idle (gets 1 (pos 8) (pos 0) ∷ puts (pos 3) ∷ [])) ≡ given_back
unfolding run step get put enter
waits_then_goes = refl

step-NoLostWakeup_example : NoLostWakeup (step one_waits (puts (pos 3))).0
unfolding over
step-NoLostWakeup_example = step-NoLostWakeup one_waits (puts (pos 3)) tt refl

run-NoLostWakeup_example : NoLostWakeup (run idle history)
unfolding step get enter over
run-NoLostWakeup_example =
    run-NoLostWakeup idle history
      (
        tt,
        (
          (
            (omega arith, omega arith),
            (omega arith, omega arith),
            ((omega arith, omega arith), tt),
          ),
          (tt, (tt, tt)),
        ),
      )
      refl

idle-InLimit : InLimit idle
idle-InLimit = record {
  set = refl;
  small = omega arith;
  not_negative = omega arith;
  below = omega arith;
  asked = tt;
}

-- Thread 1 asks for 8 and waits, 3 are given back, and thread 1 comes back.
abbrev fair_history : List Call
fair_history = gets 1 (pos 8) (pos 0) ∷ puts (pos 3) ∷ wakes 1 ∷ []

run-InLimit_example : InLimit (run idle fair_history)
unfolding step get enter over
run-InLimit_example =
    run-InLimit idle fair_history
      (
        (((omega arith, omega arith), omega arith), refl),
        (((omega arith, omega arith), omega arith), (tt, tt)),
      )
      idle-InLimit

-- Two threads wait, and neither is signalled.
abbrev two_wait : Throttle
two_wait = record one_waits {
  conds =
      record { id = 1; c = pos 8; adds = true; signaled = false }
      ∷ record { id = 2; c = pos 9; adds = true; signaled = false }
      ∷ [];
}

drain-reset_max_example : (drain (length two_wait.conds) (reset_max (pos 0) two_wait).0).conds ≡ []
drain-reset_max_example = drain-reset_max two_wait refl
