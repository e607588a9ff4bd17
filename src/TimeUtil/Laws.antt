-- ===== src/TimeUtil/Laws.antt =====
-- What the time functions compute, for times as the system clock gives them.
use keytap.Base.{
  ℕ, ◌+◌, ◌*◌, ◌/◌, ◌%◌, ◌<◌, ◌≡◌, ◌≢◌, arith, ℤ, pos, negsuc, pos_part, ◌+ℤ◌, ◌-ℤ◌, ◌*ℤ◌, ◌≤ℤ◌,
  dec_lt, int_laws, lt→ltb, le→ltb, suc, ◌≤◌, quot-pos, rem, quot, rem-pos, ◌-◌, pos_laws, ltb,
  if◌then◌else◌, Bool-cases, ltb→lt, inl, inr, refl,
}
use native.Mathlib.Nat.{add-zero, mod-eq_of_lt}
use keytap.TimeUtil.{Timeval, msec_diff, timeval_diff, msec_after}

-- A time of the clock: the microseconds are a proper fraction of a second.
abbrev pub at : ℤ → ℕ → Timeval
at s u = record { tv_sec = s; tv_usec = pos u }

-- The result of `msec_after` at such a time, in numbers.
pub msec_after-at :
    (s : ℤ) (u m : ℕ)
    → msec_after (at s u) (pos m)
      ≡ at
          (s +ℤ pos (m / 1000) +ℤ (if ltb 1000 (m % 1000 + u / 1000) then pos 1 else pos 0))
          (u % 1000 + (m % 1000 + u / 1000) % 1000 * 1000)
unfolding msec_after
msec_after-at s u m = simp (pos_laws, add-zero)

frac : (u f : ℕ) → (u % 1000 + f * 1000) / 1000 ≡ f
frac u f = omega arith

-- The difference, once the seconds have cancelled.
diff-at :
    (s : ℤ) (u m c : ℕ)
    → (m % 1000 + u / 1000) % 1000 + c * 1000 + m / 1000 * 1000 ≡ m + u / 1000
    → pos ((u % 1000 + (m % 1000 + u / 1000) % 1000 * 1000) / 1000)
        -ℤ pos (u / 1000)
        +ℤ (s +ℤ pos (m / 1000) +ℤ pos c -ℤ s) *ℤ 1000
      ≡ pos m
diff-at s u m c e = omega (int_laws, frac u ((m % 1000 + u / 1000) % 1000))

-- For a time of the clock, `msec_diff` reads back the milliseconds that `msec_after` added, unless the two
-- fractions of a second, in milliseconds, sum to exactly 1000.
pub msec_diff-msec_after :
    (s : ℤ) (u m : ℕ)
    → u < 1000000
    → m % 1000 + u / 1000 ≢ 1000
    → msec_diff (msec_after (at s u) (pos m)) (at s u) ≡ pos m
unfolding msec_diff
msec_diff-msec_after s u m h ne =
    simp (msec_after-at, pos_laws)
      (elim (Bool-cases (ltb 1000 (m % 1000 + u / 1000))) [
        | inl over ↦ rw over (diff-at s u m 1 (omega (arith, ltb→lt _ _ over)))
        | inr under ↦ rw under (diff-at s u m 0 (ground arith))
      ])

-- Where the two fractions of a second, in milliseconds, sum to exactly 1000, `msec_after` is a whole second
-- early.
pub msec_after_early :
    (s : ℤ) (u m : ℕ)
    → m % 1000 + u / 1000 ≡ 1000
    → msec_diff (msec_after (at s u) (pos m)) (at s u) +ℤ pos 1000 ≡ pos m
unfolding msec_diff
msec_after_early s u m e = simp (msec_after-at, pos_laws) (rw e (omega (int_laws, frac u 0)))

-- The exact difference of two times in microseconds.
abbrev pub usec_between : Timeval → Timeval → ℤ
usec_between a b = (a.tv_sec -ℤ b.tv_sec) *ℤ 1000000 +ℤ (a.tv_usec -ℤ b.tv_usec)

-- The result of `timeval_diff`, with a borrow and without.
timeval_diff_borrow :
    (s t : ℤ) (u v : ℕ)
    → u < v
    → v < 1000000
    → timeval_diff (at s u) (at t v) ≡ at (s -ℤ t +ℤ negsuc 0) (1000000 + u - v)
unfolding timeval_diff
timeval_diff_borrow s t u v less hv =
    rw (below, same)
      (rw (lt→ltb (0 + 0) (0 + suc (v - u - 1)) (omega arith), sum, drop) (unfold quot in refl))
  where
    below : pos u -ℤ pos v ≡ negsuc (v - u - 1)
    below = omega int_laws

    same : rem (negsuc (v - u - 1)) 1000000 ≡ negsuc (v - u - 1)
    same = unfold rem in ground arith

    sum : negsuc (v - u - 1) +ℤ pos 1000000 ≡ pos (1000000 + u - v)
    sum = omega int_laws

    drop : negsuc (v - u - 1) -ℤ pos (1000000 + u - v) ≡ negsuc 999999
    drop = omega int_laws

timeval_diff_above :
    (s t : ℤ) (u v : ℕ)
    → v ≤ u
    → u < 1000000
    → timeval_diff (at s u) (at t v) ≡ at (s -ℤ t +ℤ pos 0) (u - v)
unfolding timeval_diff
timeval_diff_above s t u v le hu =
    rw (above, rem-pos, mod-eq_of_lt small)
      (rw (le→ltb (u - v + 0) (0 + 0) (omega arith), drop, quot-pos))
  where
    above : pos u -ℤ pos v ≡ pos (u - v)
    above = omega int_laws

    small : u - v < 1000000
    small = omega arith

    drop : pos (u - v) -ℤ pos (u - v) ≡ pos 0
    drop = omega int_laws

-- Of two times of the clock `timeval_diff` is the exact difference, with a fraction of at least 0 and less
-- than a second.
pub timeval_diff_lem :
    (s t : ℤ) (u v : ℕ)
    → u < 1000000
    → v < 1000000
    → let d = timeval_diff (at s u) (at t v) in
      (usec_between d (at (pos 0) 0) ≡ usec_between (at s u) (at t v))
      × (pos 0 ≤ℤ d.tv_usec)
      × (pos_part d.tv_usec < 1000000)
timeval_diff_lem s t u v hu hv = elim (dec_lt u v) [
  | yes less ↦ rw (timeval_diff_borrow s t u v less hv) (omega int_laws, omega arith, omega arith)
  | no more ↦
      rw (timeval_diff_above s t u v (omega arith) hu) (omega int_laws, omega arith, omega arith)
]
