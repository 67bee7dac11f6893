-- ===== src/Clock/Defs.antt =====
-- `utime_t` of trunk/include/common/time_utils.h. The sums of two counts of nanoseconds are `int`s in
-- the source, which is the same below 2 ^ 31; a `time_t` is its 64-bit pattern.
use my_git_hub.Common.{ℕ, ◌+◌, ◌-◌, ◌*◌, ◌/◌, ◌%◌, Bool, ◌&&◌, ◌||◌, not, ◌==◌, ltb, if◌then◌else◌}
use my_git_hub.Common.Words.{add32, sub64, u32_mod, u64_mod}

-- 1000000000
abbrev pub giga : ℕ
giga = 1000000000

pub record Utime : Type 0 where
  pub tv_sec : ℕ
  pub tv_nsec : ℕ

abbrev pub sub32 : ℕ → ℕ → ℕ
sub32 a b = (a + (u32_mod - b % u32_mod)) % u32_mod

unfoldable pub normalize : Utime → Utime
normalize t =
    if ltb giga t.tv_nsec
    then record { tv_sec = add32 t.tv_sec (t.tv_nsec / giga); tv_nsec = t.tv_nsec % giga }
    else t

-- `utime_t(time_t s, int n)`
unfoldable pub utime : ℕ → ℕ → Utime
unfolding normalize
utime s n = normalize (record { tv_sec = s % u32_mod; tv_nsec = n % u32_mod })

abbrev pub is_zero : Utime → Bool
is_zero t = 0 == t.tv_sec && 0 == t.tv_nsec

abbrev pub usec : Utime → ℕ
usec t = t.tv_nsec / 1000

unfoldable pub to_nsec : Utime → ℕ
to_nsec t = (t.tv_nsec + t.tv_sec * giga) % u64_mod

unfoldable pub to_msec : Utime → ℕ
to_msec t = (t.tv_nsec / 1000000 + t.tv_sec * 1000) % u64_mod

-- `set_from_timeval`, of the patterns of seconds and microseconds
unfoldable pub set_from_timeval : ℕ → ℕ → Utime
set_from_timeval s us = record { tv_sec = s % u32_mod; tv_nsec = us * 1000 % u32_mod }

-- The binary `+` and `-`
unfoldable pub plus : Utime → Utime → Utime
unfolding utime
plus l r =
    utime (l.tv_sec + r.tv_sec + (l.tv_nsec + r.tv_nsec) / giga) ((l.tv_nsec + r.tv_nsec) % giga)

unfoldable pub minus : Utime → Utime → Utime
unfolding utime
minus l r =
    utime (sub64 (sub64 l.tv_sec r.tv_sec) (if ltb l.tv_nsec r.tv_nsec then 1 else 0))
      (sub32 l.tv_nsec r.tv_nsec + (if ltb l.tv_nsec r.tv_nsec then giga else 0))

-- `+=` and `-=`
unfoldable pub plus_assign : Utime → Utime → Utime
plus_assign l r = record {
  tv_sec = add32 l.tv_sec (r.tv_sec + (l.tv_nsec + r.tv_nsec) / giga);
  tv_nsec = add32 l.tv_nsec r.tv_nsec % giga;
}

unfoldable pub minus_assign : Utime → Utime → Utime
minus_assign l r =
    if ltb l.tv_nsec r.tv_nsec
    then record {
      tv_sec = sub32 (sub32 l.tv_sec r.tv_sec) 1;
      tv_nsec = add32 l.tv_nsec (sub64 giga r.tv_nsec);
    }
    else record { tv_sec = sub32 l.tv_sec r.tv_sec; tv_nsec = sub32 l.tv_nsec r.tv_nsec }

unfoldable pub gt : Utime → Utime → Bool
gt l r = ltb r.tv_sec l.tv_sec || l.tv_sec == r.tv_sec && ltb r.tv_nsec l.tv_nsec

unfoldable pub le : Utime → Utime → Bool
unfolding gt
le l r = not (gt l r)

unfoldable pub lt : Utime → Utime → Bool
lt l r = ltb l.tv_sec r.tv_sec || l.tv_sec == r.tv_sec && ltb l.tv_nsec r.tv_nsec

unfoldable pub ge : Utime → Utime → Bool
unfolding lt
ge l r = not (lt l r)

unfoldable pub eq : Utime → Utime → Bool
eq l r = l.tv_sec == r.tv_sec && l.tv_nsec == r.tv_nsec

unfoldable pub ne : Utime → Utime → Bool
ne l r = not (l.tv_sec == r.tv_sec) || not (l.tv_nsec == r.tv_nsec)
