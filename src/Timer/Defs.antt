-- ===== src/Timer/Defs.antt =====
-- The class `Timer` of trunk/src/common/timer.cpp and trunk/include/common/timer.h. A callback is known by
-- a number, 0 for a null pointer, and an iterator of the schedule by the number of its entry.
use my_git_hub.Common.{
  ℕ, zero, suc, ◌+◌, Bool, true, false, Option, none, some, List, [], ◌∷◌, ◌++◌, ◌==◌,
  if◌then◌else◌,
}
use my_git_hub.Common.OrderedMap.{OrderedMap, find, update, erase}
use my_git_hub.Clock.Defs.{Utime, lt, gt}

pub record Entry : Type 0 where
  pub id : ℕ
  pub time : Utime
  pub callback : ℕ

-- `freed` are the callbacks that were deleted.
pub record Timer : Type 0 where
  pub stopping : Bool
  pub schedule : List Entry
  pub events : OrderedMap ℕ
  pub next_id : ℕ
  pub freed : List ℕ

abbrev pub new_timer : Timer
new_timer = record { stopping = false; schedule = []; events = []; next_id = 0; freed = [] }

-- `multimap::insert` goes behind the entries of the same time.
unfoldable pub insert : Entry → List Entry → List Entry
insert e [] = e ∷ []
insert e (x ∷ xs) = if lt e.time x.time then e ∷ x ∷ xs else x ∷ insert e xs

-- `multimap::erase` of an iterator
unfoldable pub erase_at : ℕ → List Entry → List Entry
erase_at i [] = []
erase_at i (x ∷ xs) = if x.id == i then xs else x ∷ erase_at i xs

abbrev pub is_begin : ℕ → List Entry → Bool
is_begin i [] = false
is_begin i (x ∷ xs) = x.id == i

-- The timer after it, and whether the thread is signalled; `map::insert` keeps an entry that is there.
unfoldable pub add_event_at : Utime → ℕ → Timer → Timer × Bool
unfolding insert
add_event_at time cb t =
    let schedule' = insert (record { id = t.next_id; time = time; callback = cb }) t.schedule in
    (
      record t {
        schedule = schedule';
        events = update cb (λ i. i) t.next_id t.events;
        next_id = t.next_id + 1;
      },
      is_begin t.next_id schedule',
    )

-- `if (cb) delete cb;`
abbrev pub free : ℕ → List ℕ → List ℕ
free cb freed = if cb == 0 then freed else freed ++ cb ∷ []

abbrev pub cancel_found : ℕ → Option ℕ → Timer → Timer × Bool
cancel_found cb none t = (t, false)
cancel_found cb (some i) t = (
  record t {
    schedule = erase_at i t.schedule;
    events = erase cb t.events;
    freed = free cb t.freed;
  },
  true,
)

unfoldable pub cancel_event : ℕ → Timer → Timer × Bool
unfolding erase_at
cancel_event cb t = cancel_found cb (find cb t.events) t

-- The loop of `cancel_all_events`, over the events that are left.
unfoldable pub cancel_loop : OrderedMap ℕ → Timer → Timer
unfolding erase_at
cancel_loop [] t = record t { events = [] }
cancel_loop ((cb, i) ∷ m) t =
    cancel_loop m
      (record t { schedule = erase_at i t.schedule; events = m; freed = free cb t.freed })

unfoldable pub cancel_all_events : Timer → Timer
unfolding cancel_loop
cancel_all_events t = cancel_loop t.events t

-- What the thread takes off before it completes the first callback.
abbrev pub take_first : Entry → List Entry → Timer → Timer
take_first e xs t = record t { schedule = xs; events = erase e.callback t.events }

abbrev pub is_due : Utime → Entry → Bool
is_due now e = if gt e.time now then false else true

-- `finish` is what the class of a callback has for it, which may call the timer.
module _ (finish : ℕ → Timer → Timer) where
  -- `Callback::complete`: `finish(r); delete this;`
  abbrev pub complete : ℕ → Timer → Timer
  complete cb t = let t' = finish cb t in record t' { freed = t'.freed ++ cb ∷ [] }

  abbrev pub fired : ℕ → Option (List ℕ × Timer) → Option (List ℕ × Timer)
  fired cb none = none
  fired cb (some r) = some (cb ∷ r.0, r.1)

  -- The inner loop of `timer_thread`, with the rounds that it may take: the callbacks that were
  -- completed, and the timer.
  unfoldable pub run_due : ℕ → Utime → List Entry → Timer → Option (List ℕ × Timer)
  run_due rounds now [] t = some ([], t)
  run_due zero now (e ∷ xs) t = none
  run_due (suc rounds) now (e ∷ xs) t =
      let t' = complete e.callback (take_first e xs t) in
      let rest = run_due rounds now t'.schedule t' in
      if is_due now e then fired e.callback rest else some ([], t)
