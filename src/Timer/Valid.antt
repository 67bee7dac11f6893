-- ===== src/Timer/Valid.antt =====
-- What holds of a timer between two calls, and what a call does to the times of each callback.
use my_git_hub.Common.{
  ℕ, ◌+◌, ◌<◌, ◌≡◌, refl, sym, ap, ◌∙◌, subst, Bool, true, false, Option, none, some, List, [], ◌∷◌,
  ◌==◌, if◌then◌else◌, arith, Bool-cases, Option-cases, inl, inr, ==_iff, is_some, get_or, ◌⊎◌,
}
use my_git_hub.Common.OrderedMap.{
  find, update, erase, IsSorted, find-update, find-erase, update-SortedFrom, erase-SortedFrom,
}
use my_git_hub.Clock.Defs.{Utime}
use my_git_hub.Timer.Defs.{Entry, Timer, insert, erase_at, add_event_at, cancel_event, free}
use my_git_hub.Timer.Schedule.{
  of_callback, AllEntries, Owns, Sorted, of_callback-insert_other, of_callback-insert,
  of_callback-erase_other, of_callback-erase, none_of, insert-AllEntries, erase-AllEntries,
  map-AllEntries, insert-Sorted, erase-Sorted,
}

abbrev pub as_list : {A : Type 0} → Option A → List A
as_list none = []
as_list (some a) = a ∷ []

abbrev pub entry_id : Entry → ℕ
entry_id e = e.id

-- The schedule is in the order of the times, and each callback has one entry there, that of its iterator
-- in `_events`, or none in both.
pub record IsValid (t : Timer) : Type 0 where
  pub sorted : Sorted t.schedule
  pub keys : IsSorted t.events
  pub matched : (cb : ℕ) → of_callback entry_id cb t.schedule ≡ as_list (find cb t.events)
  pub owned : (cb i : ℕ) → find cb t.events ≡ some i → AllEntries (Owns i cb) t.schedule
  pub below : AllEntries (λ e. e.id < t.next_id) t.schedule
  pub known : (cb i : ℕ) → find cb t.events ≡ some i → i < t.next_id

-- The times that a callback is scheduled for.
abbrev pub times : ℕ → Timer → List Utime
times cb t = of_callback (λ e. e.time) cb t.schedule

-- The callback `cb` has the times `ts` now, and the others keep theirs.
abbrev pub Sets : ℕ → List Utime → Timer → Timer → Type 0
Sets cb ts t r = (other : ℕ) → times other r ≡ (if other == cb then ts else times other t)

module _ (time : Utime) (cb : ℕ) (t : Timer) (v : IsValid t) (fresh : find cb t.events ≡ none) where
  abbrev entry : Entry
  entry = record { id = t.next_id; time = time; callback = cb }

  none_yet : of_callback entry_id cb t.schedule ≡ []
  none_yet = v.matched cb ∙ ap as_list fresh

  of_callback-added :
      {A : Type 0} (f : Entry → A) (other : ℕ)
      → of_callback f cb t.schedule ≡ []
      → of_callback f other (insert entry t.schedule)
        ≡ (if other == cb then f entry ∷ [] else of_callback f other t.schedule)
  of_callback-added f other h = elim (Bool-cases (other == cb)) [
    | inl y ↦
        let same : other ≡ cb = (==_iff other cb).0 y in
        rw y (
          ap (λ z. of_callback f z (insert entry t.schedule)) same
          ∙ of_callback-insert f cb entry t.schedule ((==_iff cb cb).1 refl) h)
    | inr n ↦
        let differs : (cb == other) ≡ false = ground arith in
        rw n (of_callback-insert_other f other entry t.schedule differs)
  ]

  found :
      (other : ℕ)
      → find other (update cb (λ i. i) t.next_id t.events)
        ≡ (if other == cb then some t.next_id else find other t.events)
  found other =
      find-update other cb (λ i. i) t.next_id t.events
      ∙ ap (λ o. if other == cb then some (get_or o t.next_id) else find other t.events) fresh

  -- The iterator of a callback is the new one or an old one.
  new_or_old :
      (other i : ℕ)
      → find other (update cb (λ i. i) t.next_id t.events) ≡ some i
      → ((t.next_id ≡ i) × (other ≡ cb)) ⊎ (find other t.events ≡ some i)
  new_or_old other i e = elim (Bool-cases (other == cb)) [
    | inl y ↦
        let here : some t.next_id ≡ some i = rw y at (sym (found other) ∙ e) in
        inl (unsome here, (==_iff other cb).0 y)
    | inr n ↦ inr (rw n at (sym (found other) ∙ e))
  ]
    where
      unsome : {a b : ℕ} → some a ≡ some b → a ≡ b
      unsome e = cc

  not_next : (other : ℕ) → AllEntries (Owns t.next_id other) t.schedule
  not_next other =
      map-AllEntries (λ e. e.id < t.next_id) (Owns t.next_id other) t.schedule
        (λ x h y. absurd (ground arith)) v.below

  owned_added :
      (other i : ℕ)
      → ((t.next_id ≡ i) × (other ≡ cb)) ⊎ (find other t.events ≡ some i)
      → AllEntries (Owns i other) (insert entry t.schedule) × (i < t.next_id + 1)
  owned_added other i (inl (e, same)) = (
    subst (λ n. AllEntries (Owns n other) (insert entry t.schedule)) e
        (insert-AllEntries (Owns t.next_id other) entry t.schedule
          (λ y. (==_iff cb other).1 (sym same)) (not_next other)),
    omega arith,
  )
  owned_added other i (inr old) = (
    insert-AllEntries (Owns i other) entry t.schedule
        (λ y. absurd (ground (arith, v.known other i old))) (v.owned other i old),
    omega (arith, v.known other i old),
  )

  add_event_at-IsValid : IsValid (add_event_at time cb t).0
  unfolding add_event_at
  add_event_at-IsValid = record {
    sorted = insert-Sorted entry t.schedule v.sorted;
    keys = update-SortedFrom 0 cb (λ i. i) t.next_id t.events (omega arith) v.keys;
    matched = λ other.
        of_callback-added entry_id other none_yet
        ∙ listed other (Bool-cases (other == cb))
        ∙ ap as_list (sym (found other));
    owned = λ other i e. (owned_added other i (new_or_old other i e)).0;
    below =
        insert-AllEntries (λ e. e.id < t.next_id + 1) entry t.schedule (omega arith)
          (map-AllEntries (λ e. e.id < t.next_id) (λ e. e.id < t.next_id + 1) t.schedule
            (λ x h. omega (arith, h)) v.below);
    known = λ other i e. (owned_added other i (new_or_old other i e)).1;
  }
    where
      listed :
          (other : ℕ)
          → ((other == cb) ≡ true) ⊎ ((other == cb) ≡ false)
          → (if other == cb then t.next_id ∷ [] else of_callback entry_id other t.schedule)
            ≡ as_list (if other == cb then some t.next_id else find other t.events)
      listed other (inl y) = rw y refl
      listed other (inr n) = rw n (v.matched other)

  -- A callback that is not scheduled is scheduled for `time` by `add_event_at`, the others keep their times,
  -- and the timer is valid.
  pub add_event_at-Sets :
      IsValid (add_event_at time cb t).0 × Sets cb (time ∷ []) t (add_event_at time cb t).0
  unfolding add_event_at
  add_event_at-Sets = (
    add_event_at-IsValid,
    λ other. of_callback-added (λ e. e.time) other (none_of (λ e. e.time) cb t.schedule none_yet),
  )

module _ (t : Timer) (v : IsValid t) where
  -- What both `cancel_event` and the thread leave: `schedule` without the entry of the callback.
  pub removed-IsValid :
      (cb i : ℕ) (freed : List ℕ)
      → find cb t.events ≡ some i
      → IsValid
          (record t { schedule = erase_at i t.schedule; events = erase cb t.events; freed = freed })
  removed-IsValid cb i freed e =
      let others : (other : ℕ)
          → find other (erase cb t.events) ≡ (if other == cb then none else find other t.events) =
        λ other. find-erase 0 other cb t.events v.keys in
      let owns = v.owned cb i e in
      record {
        sorted = erase-Sorted i t.schedule v.sorted;
        keys = erase-SortedFrom 0 cb t.events v.keys;
        matched = λ other. gone other (Bool-cases (other == cb)) ∙ ap as_list (sym (others other));
        owned = λ other j k.
            erase-AllEntries (Owns j other) i t.schedule (v.owned other j (old other j k));
        below = erase-AllEntries (λ x. x.id < t.next_id) i t.schedule v.below;
        known = λ other j k. v.known other j (old other j k);
      }
    where
      old : (other j : ℕ) → find other (erase cb t.events) ≡ some j → find other t.events ≡ some j
      old other j k = elim (Bool-cases (other == cb)) [
        | inl y ↦ absurd (nothing (rw y at (sym (find-erase 0 other cb t.events v.keys) ∙ k)))
        | inr n ↦ rw n at (sym (find-erase 0 other cb t.events v.keys) ∙ k)
      ]
        where
          nothing : {a : ℕ} → none ≡ some a → ⊥
          nothing e = cc

      gone :
          (other : ℕ)
          → ((other == cb) ≡ true) ⊎ ((other == cb) ≡ false)
          → of_callback entry_id other (erase_at i t.schedule)
            ≡ as_list (if other == cb then none else find other t.events)
      gone other (inl y) =
          let same : other ≡ cb = (==_iff other cb).0 y in
          rw y (
            ap (λ z. of_callback entry_id z (erase_at i t.schedule)) same
            ∙ of_callback-erase entry_id cb i t.schedule (v.matched cb ∙ ap as_list e)
                (v.owned cb i e))
      gone other (inr n) = rw n (
          of_callback-erase_other entry_id cb other i t.schedule n (v.owned cb i e)
          ∙ v.matched other)

  -- What is right for `cancel_event`.
  abbrev pub IsCancelled : ℕ → Timer × Bool → Type 0
  IsCancelled cb r = IsValid r.0 × Sets cb [] t r.0 × (r.1 ≡ is_some (find cb t.events))

  times_gone :
      (cb i other : ℕ)
      → find cb t.events ≡ some i
      → of_callback (λ e. e.time) other (erase_at i t.schedule)
        ≡ (if other == cb then [] else times other t)
  times_gone cb i other e = elim (Bool-cases (other == cb)) [
    | inl y ↦
        let same : other ≡ cb = (==_iff other cb).0 y in
        rw y (
          ap (λ z. of_callback (λ e. e.time) z (erase_at i t.schedule)) same
          ∙ of_callback-erase (λ e. e.time) cb i t.schedule (v.matched cb ∙ ap as_list e)
              (v.owned cb i e))
    | inr n ↦ rw n (of_callback-erase_other (λ e. e.time) cb other i t.schedule n (v.owned cb i e))
  ]

  not_there :
      (cb other : ℕ)
      → find cb t.events ≡ none
      → times other t ≡ (if other == cb then [] else times other t)
  not_there cb other e = elim (Bool-cases (other == cb)) [
    | inl y ↦
        let same : other ≡ cb = (==_iff other cb).0 y in
        rw y (
          ap (λ z. times z t) same
          ∙ none_of (λ e. e.time) cb t.schedule (v.matched cb ∙ ap as_list e))
    | inr n ↦ rw n refl
  ]

  -- `cancel_event` leaves the callback without a time, the others with theirs, and a valid timer, and
  -- returns whether the callback was scheduled.
  pub cancel_event-IsCancelled : (cb : ℕ) → IsCancelled cb (cancel_event cb t)
  unfolding cancel_event
  cancel_event-IsCancelled cb = elim (Option-cases (find cb t.events)) [
    | inl e ↦ rw e (v, (λ other. not_there cb other e), refl)
    | inr (i, e) ↦
        rw e (removed-IsValid cb i (free cb t.freed) e, (λ other. times_gone cb i other e), refl)
  ]
