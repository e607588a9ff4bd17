-- ===== src/ServeLoop/Deadline.antt =====
-- sdiol.c, `serve_loop`: the time at which a timed run ends, and the timeout that `select` is given.
use keytap.Base.{
  ℕ, ◌+◌, ◌*◌, ◌/◌, ◌%◌, ◌<◌, ◌≡◌, refl, arith, ap, ◌∙◌, ℤ, pos, pos_part, ◌+ℤ◌, ◌*ℤ◌, ◌≤ℤ◌, ltb_ℤ,
  int_laws, if◌then◌else◌, ltb, le→ltb, Option, some, none, true, lt→ltb, false, ap₂, *ℤ-pos,
  to_int, ◌≤◌,
}
use keytap.TimeUtil.{Timeval, timeval_diff, msec_after}
use keytap.TimeUtil.Laws.{at, usec_between, msec_after-at, timeval_diff_lem}

-- `exit_time`, if `timeout` asks for one; `now` is what the clock reads at the start. The product of two `int`
-- wraps around, as it does where the compiler makes nothing of the overflow.
unfoldable pub exit_time : ℤ → Timeval → Option Timeval
unfolding msec_after
exit_time timeout now =
    if ltb_ℤ (pos 0) timeout then some (msec_after now (to_int (timeout *ℤ 1000))) else none

-- `time_till_exit`, the timeout of `select` in a round.
unfoldable pub time_till_exit : Option Timeval → Timeval → Option Timeval
unfolding timeval_diff
time_till_exit none now = none
time_till_exit (some t) now = some (timeval_diff t now)

to_int-small : (n : ℕ) → n < 2147483648 → to_int (pos n) ≡ pos n
unfolding to_int
to_int-small n h = ground (arith, h)

-- Whole seconds carry nothing over to the fraction.
exit_time-at :
    (n : ℕ) (s : ℤ) (u : ℕ)
    → 0 < n
    → n ≤ 2147483
    → u < 1000000
    → exit_time (pos n) (at s u) ≡ some (at (s +ℤ pos n) u)
unfolding exit_time
exit_time-at n s u positive fits lt = rw on (
    ap some (
      rw (*ℤ-pos n 1000) (
        rw (to_int-small (n * 1000) (omega (arith, fits))) (msec_after-at s u (n * 1000) ∙ ended))))
  where
    on : ltb 0 (n + 0) ≡ true
    on = lt→ltb 0 (n + 0) (omega arith)

    whole : n * 1000 / 1000 ≡ n
    whole = omega arith

    nothing : n * 1000 % 1000 ≡ 0
    nothing = omega arith

    no_carry : ltb 1000 (0 + u / 1000) ≡ false
    no_carry = le→ltb 1000 (0 + u / 1000) (omega arith)

    ended :
        at
          (s
            +ℤ pos (n * 1000 / 1000)
            +ℤ (if ltb 1000 (n * 1000 % 1000 + u / 1000) then pos 1 else pos 0))
          (u % 1000 + (n * 1000 % 1000 + u / 1000) % 1000 * 1000)
        ≡ at (s +ℤ pos n) u
    ended = rw whole (rw nothing (rw no_carry (ap₂ at (omega int_laws) (omega arith))))

-- With a timeout of at least one second and at most 2147483 seconds, whose milliseconds an `int` holds, the timeout that `select` is given whenever the clock is read is exactly
-- what is left of it, with a fraction of at least 0 and less than a second.
pub time_till_exit-left :
    (n : ℕ) (s t : ℤ) (u v : ℕ)
    → 0 < n
    → n ≤ 2147483
    → u < 1000000
    → v < 1000000
    → (d : Timeval) × (time_till_exit (exit_time (pos n) (at s u)) (at t v) ≡ some d)
      × (usec_between d (at (pos 0) 0) ≡ usec_between (at s u) (at t v) +ℤ pos (n * 1000000))
      × (pos 0 ≤ℤ d.tv_usec)
      × (pos_part d.tv_usec < 1000000)
unfolding time_till_exit
time_till_exit-left n s t u v positive fits hu hv =
    let (same, low, high) = timeval_diff_lem (s +ℤ pos n) t u v hu hv in
    (
      timeval_diff (at (s +ℤ pos n) u) (at t v),
      rw (exit_time-at n s u positive fits hu) refl,
      same ∙ omega int_laws,
      low,
      high,
    )
