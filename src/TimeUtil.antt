-- ===== src/TimeUtil.antt =====
-- time_util.c: differences and sums of `struct timeval`. The readings of the system clock
-- (`timeval_now`, `clock_gettime`) are arguments of the functions that use them.
pub mod Laws
use keytap.Base.{ℕ, ℤ, pos, ◌+ℤ◌, ◌-ℤ◌, ◌*ℤ◌, quot, rem, ltb_ℤ, if◌then◌else◌}

pub record Timeval : Type 0 where
  pub tv_sec : ℤ
  pub tv_usec : ℤ

-- a - b in milliseconds
unfoldable pub msec_diff : Timeval → Timeval → ℤ
msec_diff a b =
    let diff = quot a.tv_usec 1000 -ℤ quot b.tv_usec 1000 in diff +ℤ (a.tv_sec -ℤ b.tv_sec) *ℤ 1000

-- a - b
unfoldable pub timeval_diff : Timeval → Timeval → Timeval
timeval_diff a b =
    let usec_diff = a.tv_usec -ℤ b.tv_usec in
    let usec_rem = rem usec_diff 1000000 in
    let usec_mod = if ltb_ℤ usec_rem (pos 0) then usec_rem +ℤ pos 1000000 else usec_rem in
    record {
      tv_sec = a.tv_sec -ℤ b.tv_sec +ℤ quot (usec_diff -ℤ usec_mod) 1000000;
      tv_usec = usec_mod;
    }

unfoldable pub msec_after : Timeval → ℤ → Timeval
msec_after tv millis =
    let sec = tv.tv_sec +ℤ quot millis 1000 in
    let msec = rem millis 1000 +ℤ quot tv.tv_usec 1000 in
    record {
      tv_sec = sec +ℤ (if ltb_ℤ (pos 1000) msec then pos 1 else pos 0);
      tv_usec = rem tv.tv_usec 1000 +ℤ rem msec 1000 *ℤ 1000;
    }
