-- ===== src/Timer/Schedule.antt =====
-- The schedule as a list of entries: what `insert` and `erase` do to the entries of each callback.
use my_git_hub.Common.{
  ℕ, ◌≡◌, refl, ap, true, false, List, [], ◌∷◌, ◌==◌, if◌then◌else◌, arith, Bool-cases, inl, inr,
  ==_iff,
}
use my_git_hub.Clock.Defs.{Utime, lt}
use my_git_hub.Timer.Defs.{Entry, insert, erase_at}

-- The members `f` of the entries of a callback.
unfoldable pub of_callback : {A : Type 0} → (Entry → A) → ℕ → List Entry → List A
of_callback f cb [] = []
of_callback f cb (x ∷ xs) =
    if x.callback == cb then f x ∷ of_callback f cb xs else of_callback f cb xs

-- All entries satisfy `P`.
abbrev pub AllEntries : (Entry → Type 0) → List Entry → Type 0
AllEntries P [] = Unit {0}
AllEntries P (x ∷ xs) = P x × AllEntries P xs

-- Only entries of the callback `cb` have the number `i`.
abbrev pub Owns : ℕ → ℕ → Entry → Type 0
Owns i cb x = (x.id == i) ≡ true → (x.callback == cb) ≡ true

-- No entry is later than one behind it.
abbrev pub NoneBefore : Entry → List Entry → Type 0
NoneBefore e [] = Unit {0}
NoneBefore e (x ∷ xs) = (lt x.time e.time ≡ false) × NoneBefore e xs

abbrev pub Sorted : List Entry → Type 0
Sorted [] = Unit {0}
Sorted (x ∷ xs) = NoneBefore x xs × Sorted xs

module _ {A : Type 0} (f : Entry → A) where
  pub of_callback-insert_other :
      (cb : ℕ) (e : Entry) (xs : List Entry)
      → (e.callback == cb) ≡ false
      → of_callback f cb (insert e xs) ≡ of_callback f cb xs
  unfolding of_callback insert
  of_callback-insert_other cb e [] h = rw h refl
  of_callback-insert_other cb e (x ∷ xs) h = elim (Bool-cases (lt e.time x.time)) [
    | inl y ↦ rw (y, h) refl
    | inr n ↦ rw n (elim (Bool-cases (x.callback == cb)) [
      | inl k ↦ rw k (ap (◌∷◌ (f x)) (of_callback-insert_other cb e xs h))
      | inr k ↦ rw k (of_callback-insert_other cb e xs h)
    ])
  ]

  pub of_callback-insert :
      (cb : ℕ) (e : Entry) (xs : List Entry)
      → (e.callback == cb) ≡ true
      → of_callback f cb xs ≡ []
      → of_callback f cb (insert e xs) ≡ f e ∷ []
  unfolding of_callback insert
  of_callback-insert cb e [] h k = rw h refl
  of_callback-insert cb e (x ∷ xs) h k = elim (Bool-cases (x.callback == cb)) [
    | inl y ↦ absurd (nonempty (rw y at k))
    | inr n ↦ elim (Bool-cases (lt e.time x.time)) [
      | inl y ↦ rw (y, h, n) (ap (◌∷◌ (f e)) (rw n at k))
      | inr m ↦ rw (m, n) (of_callback-insert cb e xs h (rw n at k))
    ]
  ]
    where
      nonempty : {a : A} {as' : List A} → a ∷ as' ≡ [] → ⊥
      nonempty e = cc

  -- The entries of other callbacks stay.
  pub of_callback-erase_other :
      (cb other i : ℕ) (xs : List Entry)
      → (other == cb) ≡ false
      → AllEntries (Owns i cb) xs
      → of_callback f other (erase_at i xs) ≡ of_callback f other xs
  unfolding of_callback erase_at
  of_callback-erase_other cb other i [] h o = refl
  of_callback-erase_other cb other i (x ∷ xs) h o = elim (Bool-cases (x.id == i)) [
    | inl y ↦
        let not_mine : (x.callback == other) ≡ false = ground (arith, o.0 y) in
        rw (y, not_mine) refl
    | inr n ↦ rw n (elim (Bool-cases (x.callback == other)) [
      | inl k ↦ rw k (ap (◌∷◌ (f x)) (of_callback-erase_other cb other i xs h o.1))
      | inr k ↦ rw k (of_callback-erase_other cb other i xs h o.1)
    ])
  ]

  pub none_of :
      (cb : ℕ) (xs : List Entry) → of_callback (λ e. e.id) cb xs ≡ [] → of_callback f cb xs ≡ []
  unfolding of_callback
  none_of cb [] h = refl
  none_of cb (x ∷ xs) h = elim (Bool-cases (x.callback == cb)) [
    | inl y ↦ absurd (nonempty (rw y at h))
    | inr n ↦ rw n (none_of cb xs (rw n at h))
  ]
    where
      nonempty : {a : ℕ} {as' : List ℕ} → a ∷ as' ≡ [] → ⊥
      nonempty e = cc

  -- The entry of the callback goes.
  pub of_callback-erase :
      (cb i : ℕ) (xs : List Entry)
      → of_callback (λ e. e.id) cb xs ≡ i ∷ []
      → AllEntries (Owns i cb) xs
      → of_callback f cb (erase_at i xs) ≡ []
  unfolding of_callback erase_at
  of_callback-erase cb i [] h o = refl
  of_callback-erase cb i (x ∷ xs) h o = elim (Bool-cases (x.callback == cb)) [
    | inl y ↦
        let parts : (x.id ≡ i) × (of_callback (λ e. e.id) cb xs ≡ []) = halves (rw y at h) in
        let own : (x.id == i) ≡ true = (==_iff x.id i).1 parts.0 in rw own (none_of cb xs parts.1)
    | inr n ↦ elim (Bool-cases (x.id == i)) [
      | inl y ↦ absurd (ground (arith, o.0 y))
      | inr m ↦ rw (m, n) (of_callback-erase cb i xs (rw n at h) o.1)
    ]
  ]
    where
      halves : {a b : ℕ} {as' : List ℕ} → a ∷ as' ≡ b ∷ [] → (a ≡ b) × (as' ≡ [])
      halves e = (cc, cc)

module _ (P : Entry → Type 0) where
  pub insert-AllEntries :
      (e : Entry) (xs : List Entry) → P e → AllEntries P xs → AllEntries P (insert e xs)
  unfolding insert
  insert-AllEntries e [] p a = (p, tt)
  insert-AllEntries e (x ∷ xs) p a = elim (Bool-cases (lt e.time x.time)) [
    | inl y ↦ rw y (p, (a.0, a.1))
    | inr n ↦ rw n (a.0, insert-AllEntries e xs p a.1)
  ]

  pub erase-AllEntries : (i : ℕ) (xs : List Entry) → AllEntries P xs → AllEntries P (erase_at i xs)
  unfolding erase_at
  erase-AllEntries i [] a = tt
  erase-AllEntries i (x ∷ xs) a = elim (Bool-cases (x.id == i)) [
    | inl y ↦ rw y a.1
    | inr n ↦ rw n (a.0, erase-AllEntries i xs a.1)
  ]

pub map-AllEntries :
    (P Q : Entry → Type 0) (xs : List Entry)
    → ((x : Entry) → P x → Q x)
    → AllEntries P xs
    → AllEntries Q xs
map-AllEntries P Q [] k a = tt
map-AllEntries P Q (x ∷ xs) k a = (k x a.0, map-AllEntries P Q xs k a.1)

-- The order of the times.
NoneBefore-trans :
    (e x : Entry) (xs : List Entry) → lt x.time e.time ≡ false → NoneBefore x xs → NoneBefore e xs
unfolding lt
NoneBefore-trans e x [] h n = tt
NoneBefore-trans e x (y ∷ xs) h n = (ground (arith, n.0), NoneBefore-trans e x xs h n.1)

NoneBefore-insert :
    (x e : Entry) (xs : List Entry)
    → lt e.time x.time ≡ false
    → NoneBefore x xs
    → NoneBefore x (insert e xs)
unfolding insert
NoneBefore-insert x e [] h n = (h, tt)
NoneBefore-insert x e (y ∷ xs) h n = elim (Bool-cases (lt e.time y.time)) [
  | inl k ↦ rw k (h, (n.0, n.1))
  | inr k ↦ rw k (n.0, NoneBefore-insert x e xs h n.1)
]

less_not_after : (a b : Utime) → lt a b ≡ true → lt b a ≡ false
unfolding lt
less_not_after a b h = ground arith

pub insert-Sorted : (e : Entry) (xs : List Entry) → Sorted xs → Sorted (insert e xs)
unfolding insert
insert-Sorted e [] s = (tt, tt)
insert-Sorted e (x ∷ xs) s = elim (Bool-cases (lt e.time x.time)) [
  | inl y ↦
      let after = less_not_after e.time x.time y in
      rw y ((after, NoneBefore-trans e x xs after s.0), (s.0, s.1))
  | inr n ↦ rw n (NoneBefore-insert x e xs n s.0, insert-Sorted e xs s.1)
]

NoneBefore-erase :
    (x : Entry) (i : ℕ) (xs : List Entry) → NoneBefore x xs → NoneBefore x (erase_at i xs)
unfolding erase_at
NoneBefore-erase x i [] n = tt
NoneBefore-erase x i (y ∷ xs) n = elim (Bool-cases (y.id == i)) [
  | inl k ↦ rw k n.1
  | inr k ↦ rw k (n.0, NoneBefore-erase x i xs n.1)
]

pub erase-Sorted : (i : ℕ) (xs : List Entry) → Sorted xs → Sorted (erase_at i xs)
unfolding erase_at
erase-Sorted i [] s = tt
erase-Sorted i (x ∷ xs) s = elim (Bool-cases (x.id == i)) [
  | inl y ↦ rw y s.1
  | inr n ↦ rw n (NoneBefore-erase x i xs s.0, erase-Sorted i xs s.1)
]
