-- ===== src/Throttle/Drain.antt =====
-- Who waits is let go when the limit is lifted.
use my_git_hub.Common.{
  ℕ, zero, suc, length, ◌≡◌, refl, ap, true, false, List, [], ◌∷◌, ◌∙◌, ==_iff, if◌then◌else◌,
  Bool-cases, inl, inr,
}
use my_git_hub.Common.Int.{ℤ, pos, eqb_ℤ}
use my_git_hub.Throttle.Defs.{
  Waiter, Throttle, is_zero, over, signal_front, set_limit, reset_max, wake_in, wake,
}

-- The first thread that waits comes back, if it was signalled; no other one was.
abbrev pub wake_signaled : List Waiter → Throttle → Throttle
wake_signaled [] t = t
wake_signaled (w ∷ ws) t = if w.signaled then (wake w.id t).0 else t

-- So many rounds of that.
unfoldable pub drain : ℕ → Throttle → Throttle
drain zero t = t
drain (suc n) t = drain n (wake_signaled t.conds t)

over_free : (max cur c : ℤ) → is_zero max ≡ true → over max cur c ≡ false
unfolding over
over_free max cur c z = rw z refl

wake_first :
    (w : Waiter) (ws : List Waiter) (t : Throttle)
    → is_zero t.limit ≡ true
    → ((wake_in w.id (w ∷ ws) t).0.conds ≡ signal_front ws)
      × ((wake_in w.id (w ∷ ws) t).0.limit ≡ t.limit)
unfolding wake_in
wake_first w ws t z = rw ((==_iff w.id w.id).1 refl, over_free t.limit t.count w.c z) (refl, refl)

wake_head :
    (w : Waiter) (ws : List Waiter) (t : Throttle)
    → t.conds ≡ w ∷ ws
    → is_zero t.limit ≡ true
    → ((wake w.id t).0.conds ≡ signal_front ws) × ((wake w.id t).0.limit ≡ t.limit)
unfolding wake
wake_head w ws t q z = rw q (wake_first w ws t z)

drain_lem :
    (ws : List Waiter) (t : Throttle)
    → t.conds ≡ signal_front ws
    → is_zero t.limit ≡ true
    → (drain (length ws) t).conds ≡ []
unfolding drain
drain_lem [] t q z = q
drain_lem (w ∷ ws) t q z =
    let h = wake_head (record w { signaled = true }) ws t q z in
    ap (λ ws'. (drain (length ws) (wake_signaled ws' t)).conds) q
    ∙ drain_lem ws (wake w.id t).0 h.0 (rw h.1 z)

lifted :
    (t : Throttle) → is_zero t.limit ≡ false → (set_limit (pos 0) t).conds ≡ signal_front t.conds
unfolding set_limit
lifted t n = rw n refl

free_of_limit : (t : Throttle) → is_zero (set_limit (pos 0) t).limit ≡ true
unfolding set_limit
free_of_limit t = elim (Bool-cases (eqb_ℤ t.limit (pos 0))) [ inl y ↦ rw y y | inr n ↦ rw n refl ]

-- When a limit is lifted by `reset_max(0)`, all the threads that wait go on, one after the other,
-- where each comes back only when it was signalled: after as many rounds as threads wait, nobody
-- does.
pub drain-reset_max :
    (t : Throttle)
    → is_zero t.limit ≡ false
    → (drain (length t.conds) (reset_max (pos 0) t).0).conds ≡ []
unfolding reset_max
drain-reset_max t n = drain_lem t.conds (set_limit (pos 0) t) (lifted t n) (free_of_limit t)
