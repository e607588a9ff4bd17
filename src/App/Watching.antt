-- ===== src/App/Watching.antt =====
-- Watching a descriptor keeps all of them below the greatest.
use keytap.Base.{ℕ, ℤ, pos, ◌≤ℤ◌, arith, List, [], ◌∷◌, All, All-append}
use keytap.App.{Watched, none_watched, raise, watch_rd, watch_wr, InBound}

All-le-raise :
    (m : ℤ) (fd : ℕ) (fds : List ℕ)
    → All (λ (k : ℕ). pos k ≤ℤ m) fds
    → All (λ (k : ℕ). pos k ≤ℤ raise m fd) fds
All-le-raise m fd [] h = tt
All-le-raise m fd (k ∷ fds) h = (ground (arith, h.0), All-le-raise m fd fds h.1)

le-raise : (m : ℤ) (fd : ℕ) → pos fd ≤ℤ raise m fd
le-raise m fd = ground arith

pub none_watched-InBound : InBound none_watched
none_watched-InBound = record { rd = tt; wr = tt }

pub watch_rd-InBound : (fd : ℕ) (w : Watched) → InBound w → InBound (watch_rd fd w)
unfolding watch_rd
watch_rd-InBound fd w h = record {
  rd = All-append _ w.rd_fds _ (All-le-raise w.max_fd fd w.rd_fds h.rd) (le-raise w.max_fd fd, tt);
  wr = All-le-raise w.max_fd fd w.wr_fds h.wr;
}

pub watch_wr-InBound : (fd : ℕ) (w : Watched) → InBound w → InBound (watch_wr fd w)
unfolding watch_wr
watch_wr-InBound fd w h = record {
  rd = All-le-raise w.max_fd fd w.rd_fds h.rd;
  wr = All-append _ w.wr_fds _ (All-le-raise w.max_fd fd w.wr_fds h.wr) (le-raise w.max_fd fd, tt);
}
