-- ===== src/App.antt =====
-- app.h: the application that `serve_loop` passes events to, as an interface with laws, and the descriptors that
-- `select` watches.
pub mod Watching
use keytap.Base.{
  ℕ, ℤ, pos, negsuc, ltb_ℤ, ◌≤ℤ◌, if◌then◌else◌, List, [], ◌∷◌, ◌++◌, All, Outcome, ok, halt, Halt,
}
use keytap.Input.{InputEvent}

-- The sets of descriptors for reading and writing, and the greatest of them: -1 where there is none.
pub record Watched : Type 0 where
  pub max_fd : ℤ
  pub rd_fds : List ℕ
  pub wr_fds : List ℕ

abbrev pub none_watched : Watched
none_watched = record { max_fd = negsuc 0; rd_fds = []; wr_fds = [] }

-- `if(fd > max_fd) max_fd = fd`
abbrev pub raise : ℤ → ℕ → ℤ
raise max_fd fd = if ltb_ℤ max_fd (pos fd) then pos fd else max_fd

-- `FD_SET` in the set for reading and in that for writing, with the update of the greatest.
unfoldable pub watch_rd : ℕ → Watched → Watched
watch_rd fd w = record w { max_fd = raise w.max_fd fd; rd_fds = w.rd_fds ++ (fd ∷ []) }

unfoldable pub watch_wr : ℕ → Watched → Watched
watch_wr fd w = record w { max_fd = raise w.max_fd fd; wr_fds = w.wr_fds ++ (fd ∷ []) }

-- `select` looks at the descriptors up to the greatest only.
pub record InBound (w : Watched) : Type 0 where
  pub rd : All (λ (fd : ℕ). pos fd ≤ℤ w.max_fd) w.rd_fds
  pub wr : All (λ (fd : ℕ). pos fd ≤ℤ w.max_fd) w.wr_fds

-- A call that returns keeps `P`; otherwise the program stops in one of these ways.
abbrev pub Keeps {ℓ} : {A : Type 0} → (A → Type ℓ) → (Halt → Type ℓ) → Outcome A → Type ℓ
Keeps P Stops (ok a) = P a
Keeps P Stops (halt h) = Stops h

-- The callbacks on the application's data, and what they keep of it. A null `prep_select` watches nothing,
-- and a null `handle_select` does nothing. `Ready` is what `select` and the calls after it give.
pub record App : Type 1 where
  pub State : Type 0
  pub Ready : Type 0
  pub send : State → InputEvent → State
  pub prep_select : State → Watched
  pub handle_select : Ready → State → Outcome State
  pub IsGood : State → Type 0
  pub Stops : Halt → Type 0
  pub send-IsGood : (s : State) (ev : InputEvent) → IsGood s → IsGood (send s ev)
  pub handle_select-Keeps :
      (r : Ready) (s : State) → IsGood s → Keeps IsGood Stops (handle_select r s)
  pub prep_select-InBound : (s : State) → InBound (prep_select s)
