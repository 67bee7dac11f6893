-- ===== src/Clock/Duration.antt =====
-- Sums, differences and comparisons of points in time are those of their nanoseconds.
use my_git_hub.Common.{
  ℕ, ◌+◌, ◌-◌, ◌*◌, ◌/◌, ◌%◌, ◌≤◌, ◌<◌, ◌≡◌, refl, sym, ap, ap₂, ◌∙◌, subst, true, false, ltb,
  arith, Bool-cases, inl, inr,
}
use my_git_hub.Common.Words.{u32_mod, add32, sub64}
use my_git_hub.Clock.Defs.{
  Utime, giga, sub32, normalize, utime, plus, minus, plus_assign, minus_assign,
}

-- 32-bit seconds, and less than a second of nanoseconds.
pub record IsNormal (t : Utime) : Type 0 where
  pub sec : t.tv_sec < u32_mod
  pub nsec : t.tv_nsec < giga

abbrev pub nanoseconds : Utime → ℕ
nanoseconds t = t.tv_sec * giga + t.tv_nsec

of : ℕ → ℕ → Utime
of s n = record { tv_sec = s; tv_nsec = n }

-- A count of nanoseconds determines the point in time.
same_time : (a b : Utime) → IsNormal a → IsNormal b → nanoseconds a ≡ nanoseconds b → a ≡ b
unfolding of
same_time a b v w e =
    let sec : a.tv_sec ≡ b.tv_sec = omega (arith, e, v.nsec, w.nsec) in
    let nsec : a.tv_nsec ≡ b.tv_nsec = omega (arith, e, v.nsec, w.nsec) in ap₂ of sec nsec

utime_small : (s n : ℕ) → n % u32_mod < giga → utime s n ≡ of (s % u32_mod) (n % u32_mod)
unfolding utime normalize of
utime_small s n h = let small : ltb giga (n % u32_mod) ≡ false = ground arith in rw small refl

module _ (l r : Utime) (v : IsNormal l) (w : IsNormal r) where
  -- The seconds and the nanoseconds of a sum and of a difference, which carry and borrow.
  plus_parts :
      plus l r
      ≡ of
          ((l.tv_sec + r.tv_sec + (l.tv_nsec + r.tv_nsec) / giga) % u32_mod)
          ((l.tv_nsec + r.tv_nsec) % giga)
  unfolding plus
  plus_parts =
      let nsec : (l.tv_nsec + r.tv_nsec) % giga % u32_mod ≡ (l.tv_nsec + r.tv_nsec) % giga =
        omega arith in
      utime_small (l.tv_sec + r.tv_sec + (l.tv_nsec + r.tv_nsec) / giga)
        ((l.tv_nsec + r.tv_nsec) % giga) (omega arith)
      ∙ ap (of ((l.tv_sec + r.tv_sec + (l.tv_nsec + r.tv_nsec) / giga) % u32_mod)) nsec

  plus_assign_lem : plus_assign l r ≡ plus l r
  unfolding plus_assign of
  plus_assign_lem =
      let sec : add32 l.tv_sec (r.tv_sec + (l.tv_nsec + r.tv_nsec) / giga)
          ≡ (l.tv_sec + r.tv_sec + (l.tv_nsec + r.tv_nsec) / giga) % u32_mod =
        omega arith in
      let nsec : add32 l.tv_nsec r.tv_nsec % giga ≡ (l.tv_nsec + r.tv_nsec) % giga =
        omega (arith, v.nsec, w.nsec) in
      ap₂ of sec nsec ∙ sym plus_parts

  minus_borrow :
      l.tv_nsec < r.tv_nsec
      → minus l r ≡ of (sub32 (sub32 l.tv_sec r.tv_sec) 1) (l.tv_nsec + giga - r.tv_nsec)
  unfolding minus
  minus_borrow h =
      let less : ltb l.tv_nsec r.tv_nsec ≡ true = ground arith in
      let nsec : (sub32 l.tv_nsec r.tv_nsec + giga) % u32_mod ≡ l.tv_nsec + giga - r.tv_nsec =
        omega (arith, v.nsec, w.nsec) in
      let sec : sub64 (sub64 l.tv_sec r.tv_sec) 1 % u32_mod ≡ sub32 (sub32 l.tv_sec r.tv_sec) 1 =
        omega (arith, v.sec, w.sec) in
      rw less (
        utime_small (sub64 (sub64 l.tv_sec r.tv_sec) 1) (sub32 l.tv_nsec r.tv_nsec + giga)
          (omega (arith, nsec, w.nsec, h))
        ∙ ap₂ of sec nsec)

  minus_direct :
      r.tv_nsec ≤ l.tv_nsec → minus l r ≡ of (sub32 l.tv_sec r.tv_sec) (l.tv_nsec - r.tv_nsec)
  unfolding minus
  minus_direct h =
      let less : ltb l.tv_nsec r.tv_nsec ≡ false = ground arith in
      let nsec : (sub32 l.tv_nsec r.tv_nsec + 0) % u32_mod ≡ l.tv_nsec - r.tv_nsec =
        omega (arith, v.nsec, w.nsec) in
      let sec : sub64 (sub64 l.tv_sec r.tv_sec) 0 % u32_mod ≡ sub32 l.tv_sec r.tv_sec =
        omega (arith, v.sec, w.sec) in
      rw less (
        utime_small (sub64 (sub64 l.tv_sec r.tv_sec) 0) (sub32 l.tv_nsec r.tv_nsec + 0)
          (omega (arith, nsec, v.nsec))
        ∙ ap₂ of sec nsec)

  minus_assign_lem : minus_assign l r ≡ minus l r
  unfolding minus_assign of
  minus_assign_lem = elim (Bool-cases (ltb l.tv_nsec r.tv_nsec)) [
    | inl y ↦
        let nsec : add32 l.tv_nsec (sub64 giga r.tv_nsec) ≡ l.tv_nsec + giga - r.tv_nsec =
          omega (arith, v.nsec, w.nsec) in
        rw y (ap (of (sub32 (sub32 l.tv_sec r.tv_sec) 1)) nsec ∙ sym (minus_borrow (ground arith)))
    | inr n ↦
        let nsec : sub32 l.tv_nsec r.tv_nsec ≡ l.tv_nsec - r.tv_nsec =
          ground (arith, v.nsec, w.nsec) in
        rw n (ap (of (sub32 l.tv_sec r.tv_sec)) nsec ∙ sym (minus_direct (ground arith)))
  ]

  -- Two points in time, their nanoseconds below 10 ^ 9: a sum whose seconds fit in 32 bits has the sum of
  -- the nanoseconds, and less than a second of them, and so has `+=`, which is the same.
  pub nanoseconds-plus :
      l.tv_sec + r.tv_sec + 1 < u32_mod
      → IsNormal (plus l r)
        × (nanoseconds (plus l r) ≡ nanoseconds l + nanoseconds r)
        × (plus_assign l r ≡ plus l r)
  unfolding of
  nanoseconds-plus h = (
    subst IsNormal (sym plus_parts)
        (record { sec = omega (arith, v.nsec, w.nsec); nsec = omega arith }),
    ap nanoseconds plus_parts ∙ omega (arith, v.nsec, w.nsec),
    plus_assign_lem,
  )

  pub nanoseconds-minus :
      nanoseconds r ≤ nanoseconds l
      → IsNormal (minus l r)
        × (nanoseconds (minus l r) + nanoseconds r ≡ nanoseconds l)
        × (minus_assign l r ≡ minus l r)
  unfolding of
  nanoseconds-minus h = elim (Bool-cases (ltb l.tv_nsec r.tv_nsec)) [
    | inl y ↦
        let less : l.tv_nsec < r.tv_nsec = ground arith in
        let sec : sub32 (sub32 l.tv_sec r.tv_sec) 1 + r.tv_sec + 1 ≡ l.tv_sec =
          omega (arith, v.sec, v.nsec, w.sec, w.nsec) in
        (
          subst IsNormal (sym (minus_borrow less))
              (record { sec = omega arith; nsec = omega (arith, w.nsec) }),
          ap (λ t. nanoseconds t + nanoseconds r) (minus_borrow less)
              ∙ omega (arith, sec, v.nsec, w.nsec),
          minus_assign_lem,
        )
    | inr n ↦
        let more : r.tv_nsec ≤ l.tv_nsec = ground arith in
        let sec : sub32 l.tv_sec r.tv_sec + r.tv_sec ≡ l.tv_sec =
          omega (arith, v.sec, v.nsec, w.sec, w.nsec) in
        (
          subst IsNormal (sym (minus_direct more))
              (record { sec = omega arith; nsec = omega (arith, v.nsec) }),
          ap (λ t. nanoseconds t + nanoseconds r) (minus_direct more)
              ∙ omega (arith, sec, v.nsec, w.nsec),
          minus_assign_lem,
        )
  ]

-- Two points in time, their nanoseconds below 10 ^ 9, and the seconds of their sum within 32 bits:
-- what is added is taken off again.
pub minus-plus :
    (l r : Utime)
    → IsNormal l
    → IsNormal r
    → l.tv_sec + r.tv_sec + 1 < u32_mod
    → minus (plus l r) r ≡ l
minus-plus l r v w h =
    let (normal, sum, same) = nanoseconds-plus l r v w h in
    let (normal', difference, same') =
      nanoseconds-minus (plus l r) r normal w (omega (arith, sum)) in
    same_time (minus (plus l r) r) l normal' v (omega (arith, sum, difference))
