-- ===== src/Resolver/Decision.antt =====
-- `check_waveform`: what decides between tap and hold, said of the list of queued events.
use keytap.Base.{
  subst, ap₂, zero, suc, if-cases, ℕ, ◌<◌, ◌≡◌, ◌≢◌, ◌⊎◌, inl, inr, arith, Bool, true, false, not,
  ◌&&◌, ◌||◌, ◌==◌, ltb, List, [], ◌∷◌, ◌++◌, Cells, append_assoc, refl, ◌+◌, append-nil, suc, ℤ,
  ◌-◌, ltb_ℤ,
}
use keytap.TimeUtil.{Timeval, msec_diff}
use keytap.Input.{InputEvent, is_key, value_is, key_max}
use keytap.KeyAction.{DualMode}
use keytap.Resolver.{Resolver, ur_at}
use keytap.Resolver.Waveforms.{
  check_waveform, is_timeout_only, Waveform, tap, hold, none_yet, Round, return, continue,
  scan_body, is_hold_on_rollover, scan_waveform, after_round,
}
use keytap.Resolver.Frame.{OnlyLastTap, round_state, scan_body-OnlyLastTap}
use keytap.Resolver.Ring.{window}

abbrev pub is_press : InputEvent → Bool
is_press e = is_key e && value_is e 1

abbrev pub is_release : InputEvent → Bool
is_release e = is_key e && value_is e 0

-- Is key `c` pressed among these events?
pub pressed_in : ℕ → List InputEvent → Bool
pressed_in c [] = false
pressed_in c (e ∷ es) = (is_press e && e.code == c) || pressed_in c es

-- The event `e`, after the events `before`, decides on the waveform of a dual-mode key `x`: its own
-- release is a tap. Of the others, the release of a key that was pressed among `before` is a
-- hold, and in `hold_on_rollover` mode any press.
abbrev pub Decides : DualMode → ℕ → List InputEvent → InputEvent → Waveform → Type 0
Decides mode x before e tap = (is_release e ≡ true) × (e.code ≡ x)
Decides mode x before e hold =
    ((is_press e ≡ true) × (is_hold_on_rollover mode ≡ true))
    ⊎ ((is_release e ≡ true)
        × (e.code ≢ x)
        × (e.code < key_max)
        × (pressed_in e.code before ≡ true))
Decides mode x before e none_yet = ⊥

-- No event of the list decides, after those before it.
pub data Quiet (mode : DualMode) (x : ℕ) : List InputEvent → Type 0 where
  start : Quiet mode x []
  more :
      {before : List InputEvent} (e : InputEvent)
      → Quiet mode x before
      → ((w : Waveform) → ¬ Decides mode x before e w)
      → Quiet mode x (before ++ (e ∷ []))

-- The first event that decides gives the waveform.
pub data Verdict (mode : DualMode) (x : ℕ) (evs : List InputEvent) : Waveform → Type 0 where
  waits : Quiet mode x evs → Verdict mode x evs none_yet
  decided :
      {w : Waveform} (before : List InputEvent) (e : InputEvent) (after : List InputEvent)
      → evs ≡ before ++ (e ∷ after)
      → Quiet mode x before
      → Decides mode x before e w
      → Verdict mode x evs w

pressed_in_snoc :
    (c : ℕ) (es : List InputEvent) (e : InputEvent)
    → pressed_in c (es ++ (e ∷ [])) ≡ (pressed_in c es || (is_press e && e.code == c))
unfolding pressed_in
pressed_in_snoc c [] e = ground arith
pressed_in_snoc c (f ∷ es) e = ground (arith, pressed_in_snoc c es e)

-- The array of the loop holds the keys pressed so far.
abbrev Marks : Cells Bool → List InputEvent → Type 0
Marks keys seen = (c : ℕ) → c < key_max → keys c ≡ pressed_in c seen

abbrev BodyDecides : DualMode → ℕ → List InputEvent → InputEvent → Round → Type 0
BodyDecides mode x seen e (return w r) = Decides mode x seen e w
BodyDecides mode x seen e (continue keys r) =
    ((w : Waveform) → ¬ Decides mode x seen e w) × Marks keys (seen ++ (e ∷ []))

neither :
    (mode : DualMode) (x : ℕ) (before : List InputEvent) (e : InputEvent)
    → ¬ Decides mode x before e tap
    → ¬ Decides mode x before e hold
    → (w : Waveform) → ¬ Decides mode x before e w
neither mode x before e t h tap = t
neither mode x before e t h hold = h
neither mode x before e t h none_yet = λ d. d

scan_body-BodyDecides :
    (keys : Cells Bool) (r : Resolver) (ev : InputEvent) (mode : DualMode) (seen : List InputEvent)
    (e : InputEvent)
    → Marks keys seen
    → BodyDecides mode ev.code seen e (scan_body keys r ev mode e)
unfolding scan_body
scan_body-BodyDecides keys r ev mode seen e m =
    if-cases P (not (is_key e)) _ _
      (λ other. (
        quiet (ground arith) (ground arith),
        λ c lt. ground (arith, pressed_in_snoc c seen e, m c lt),
      ))
      λ key.
        if-cases P (value_is e 0 && e.code == ev.code) _ _ (λ own. ground arith)
          λ not_own.
            if-cases P (is_hold_on_rollover mode && is_key e && value_is e 1) _ _
              (λ rolled. inl (ground arith))
              λ not_rolled.
                if-cases P (value_is e 1 && ltb e.code key_max) _ _
                  (λ press. (
                    quiet (ground arith) (ground arith),
                    λ c lt. ground (arith, pressed_in_snoc c seen e, m c lt),
                  ))
                  λ not_press.
                    if-cases P (value_is e 0 && ltb e.code key_max && keys e.code) _ _
                      (λ released. inr (ground (arith, m e.code)))
                      λ not_released. (
                        quiet (ground arith) (ground (arith, m e.code)),
                        λ c lt. ground (arith, pressed_in_snoc c seen e, m c lt),
                      )
  where
    P : Round → Type 0
    P b = BodyDecides mode ev.code seen e b

    quiet :
        ¬ Decides mode ev.code seen e tap
        → ¬ Decides mode ev.code seen e hold
        → (w : Waveform) → ¬ Decides mode ev.code seen e w
    quiet = neither mode ev.code seen e

after_body :
    (mode : DualMode) (x : ℕ) (seen : List InputEvent) (e : InputEvent) (rest : List InputEvent)
    (r : Resolver) (go : Cells Bool → Resolver → Waveform × Resolver)
    → Quiet mode x seen
    → ((keys : Cells Bool) (r' : Resolver)
        → OnlyLastTap r r'
        → Marks keys (seen ++ (e ∷ []))
        → Quiet mode x (seen ++ (e ∷ []))
        → Verdict mode x ((seen ++ (e ∷ [])) ++ rest) (go keys r').0)
    → (b : Round) → OnlyLastTap r (round_state b)
    → BodyDecides mode x seen e b
    → Verdict mode x (seen ++ (e ∷ rest)) (after_round go b).0
after_body mode x seen e rest r go q ih (return w r') f d = decided seen e rest refl q d
after_body mode x seen e rest r go q ih (continue keys r') f (n, m) =
    rw (append_assoc seen (e ∷ []) rest) at (ih keys r' f m (more e q n))

same_window :
    {r r' : Resolver}
    → OnlyLastTap r r'
    → (i n : ℕ)
    → window r'.unresolved (r'.ur_start + (i + 1)) n ≡ window r.unresolved (r.ur_start + i + 1) n
same_window {r} f i n = ap₂ (λ u s. window u s n) f.unresolved (omega (arith, f.ur_start))

scan_waveform-Verdict :
    (rounds i : ℕ) (keys : Cells Bool) (r : Resolver) (ev : InputEvent) (mode : DualMode)
    (seen : List InputEvent)
    → Marks keys seen
    → Quiet mode ev.code seen
    → Verdict mode ev.code
        (seen ++ window r.unresolved (r.ur_start + i) rounds)
        (scan_waveform rounds i keys r ev mode).0
unfolding scan_waveform
scan_waveform-Verdict zero i keys r ev mode seen m q = rw append-nil (waits q)
scan_waveform-Verdict (suc rounds) i keys r ev mode seen m q =
    after_body mode ev.code seen (ur_at r i) (window r.unresolved (r.ur_start + i + 1) rounds) r
      (λ keys' r'. scan_waveform rounds (i + 1) keys' r' ev mode) q
      (λ keys' r' f m' q'.
        subst
          (λ evs.
            Verdict mode ev.code ((seen ++ (ur_at r i ∷ [])) ++ evs)
              (scan_waveform rounds (i + 1) keys' r' ev mode).0)
          (same_window f i rounds)
          (scan_waveform-Verdict rounds (i + 1) keys' r' ev mode (seen ++ (ur_at r i ∷ [])) m' q'))
      (scan_body keys r ev mode (ur_at r i)) (scan_body-OnlyLastTap keys r ev mode (ur_at r i))
      (scan_body-BodyDecides keys r ev mode seen (ur_at r i) m)

-- The queued events behind the oldest.
abbrev pub behind : Resolver → List InputEvent
behind r = window r.unresolved (r.ur_start + 1) (r.ur_len - 1)

-- Before the hold time has passed, and in a mode other than `timeout_only`, the waveform of a pressed
-- dual-mode key is that of the first of the events behind it that decides, and open if none does.
pub check_waveform-Verdict :
    (now : Timeval) (r : Resolver) (ev : InputEvent) (mode : DualMode) (hold_ms dtms : ℤ)
    → ltb_ℤ hold_ms (msec_diff now ev.time) ≡ false
    → is_timeout_only mode ≡ false
    → Verdict mode ev.code (behind r) (check_waveform now r ev mode hold_ms dtms).0
unfolding check_waveform
check_waveform-Verdict now r ev mode hold_ms dtms early scans =
    rw (early, scans)
      (scan_waveform-Verdict (r.ur_len - 1) 1 (λ _. false) r ev mode []
        (λ c lt. unfold pressed_in in refl) start)
