-- ===== src/Resolver/Plain.antt =====
-- The resolver on a keymap without dual-mode keys and without keymaps in it: what `resolve` does with the only
-- event in the queue, next to a description of such a keymap that has neither a queue nor a map of releases.
use keytap.Base.{
  ℕ, ◌<◌, ◌≡◌, ◌≢◌, refl, arith, Bool, true, false, not, List, [], ◌∷◌, Cells, update, ok, halt,
  if◌then◌else◌, ◌==◌, lt→ltb, Bool-cases, inl, sym, ==_iff, inr, Bool, ◌∙◌, ap, ◌&&◌, le→ltb,
}
use keytap.TimeUtil.{Timeval}
use keytap.Input.{InputEvent, is_key, value_is, key_max}
use keytap.KeyAction.{KeyAction, none, ref, simple, macro, dual, map, key_action_get}
use keytap.Resolver.{Resolver, urmax, reset_keymap}
use keytap.Resolver.Steps.{
  Resolved, do_keypress, resolve_action, resolve_press, resolve_release, resolve_repeat,
  resolve_oldest,
}
use keytap.Resolver.Remap.{IsPlain, on_press, on_other}

-- The code of a key's release while the key is down.
abbrev pub release_code : KeyAction → ℕ
release_code (simple c) = c
release_code _ = 0

-- The resolver has `n` events in its queue, has counted `held`, and has resolved the keys of `down`.
pub record Follows (m : ℕ → KeyAction) (n : ℕ) (held down : Cells ℕ) (r : Resolver) : Type 0 where
  pub waiting : r.ur_len ≡ n
  pub start_in : r.ur_start < urmax
  pub counts : (c : ℕ) → r.input_counts c ≡ held c
  pub root : r.root_keymap ≡ map m
  pub current : r.current_keymap ≡ map m
  pub releases :
      (c : ℕ) → c < key_max → r.release_map c ≡ (if down c == 0 then 0 else release_code (m c))

-- The event is resolved, `sent` was sent, and the keys of `held` are down.
abbrev pub ResolvedTo : (ℕ → KeyAction) → ℕ → Cells ℕ → List InputEvent → Resolved → Type 0
ResolvedTo m n held sent (ok (true, r, evs)) = Follows m n held held r × (evs ≡ sent)
ResolvedTo m n held sent (ok (false, r, evs)) = ⊥
ResolvedTo m n held sent (halt h) = ⊥

-- What the map of releases holds is no code that resets the keymap, and stands for what is sent.
plain_code : (ka : KeyAction) → IsPlain ka → (release_code ka == reset_keymap) ≡ false
plain_code (simple c) p = ground (arith, p)
plain_code (macro ms) p = refl
plain_code none p = refl
plain_code (ref ka) p = refl
plain_code (dual t h mode hold_ms dtms) p = refl
plain_code (map m') p = refl

plain_other :
    (ka : KeyAction) (ev : InputEvent)
    → IsPlain ka
    → on_other ka ev
      ≡ (if release_code ka == 0 then [] else record ev { code = release_code ka } ∷ [])
plain_other (simple c) ev p = refl
plain_other (macro ms) ev p = refl
plain_other none ev p = refl
plain_other (ref ka) ev p = refl
plain_other (dual t h mode hold_ms dtms) ev p = refl
plain_other (map m') ev p = refl

code_down :
    {m : ℕ → KeyAction} {n : ℕ} {held down : Cells ℕ} {r : Resolver} (c : ℕ)
    → Follows m n held down r
    → c < key_max
    → down c ≢ 0
    → r.release_map c ≡ release_code (m c)
code_down c f lt is = f.releases c lt ∙ ground (arith, is)

swapped :
    (x : List InputEvent) (b : Bool)
    → (if not b && not false then x else []) ≡ (if b then [] else x)
swapped x true = refl
swapped x false = refl

-- Other counters, and other keys that are down.
pub recount :
    {m : ℕ → KeyAction} {n : ℕ} {held down : Cells ℕ} {r : Resolver} (counts held' down' : Cells ℕ)
    → Follows m n held down r
    → ((c : ℕ) → counts c ≡ held' c)
    → ((c : ℕ) → (down' c == 0) ≡ (down c == 0))
    → Follows m n held' down' (record r { input_counts = counts })
recount counts held' down' f h d = record {
  waiting = f.waiting;
  start_in = f.start_in;
  counts = h;
  root = f.root;
  current = f.current;
  releases = λ c lt. rw (d c) (f.releases c lt);
}

module _ (m : ℕ → KeyAction) (plain : (c : ℕ) → c < key_max → IsPlain (m c)) (n : ℕ)
    (held down : Cells ℕ) (now : Timeval) (ev : InputEvent) (lt : ev.code < key_max) where
  -- The counts have changed for this key only.
  abbrev pub Elsewhere : Type 0
  Elsewhere = (c : ℕ) → c ≢ ev.code → held c ≡ down c

  -- The cell of the key in the map of releases is written, and the counts have changed for this key only.
  written :
      (r : Resolver) (code : ℕ)
      → Follows m n held down r
      → Elsewhere
      → code ≡ (if held ev.code == 0 then 0 else release_code (m ev.code))
      → Follows m n held held (record r { release_map = update r.release_map ev.code code })
  written r code f els e = record {
    waiting = f.waiting;
    start_in = f.start_in;
    counts = f.counts;
    root = f.root;
    current = f.current;
    releases = λ c c_lt. elim (Bool-cases (ev.code == c)) [
      | inl here ↦ rw here (rw (sym ((==_iff _ _).0 here)) e)
      | inr other ↦ rw other (rw (els c (ground arith)) (f.releases c c_lt))
    ];
  }

  action-ResolvedTo :
      (ka : KeyAction) (r : Resolver)
      → m ev.code ≡ ka
      → IsPlain ka
      → Follows m n held down r
      → Elsewhere
      → down ev.code ≡ 0
      → held ev.code ≢ 0
      → ResolvedTo m n held (on_press ka ev) (resolve_action now r ev ka)
  unfolding resolve_action do_keypress
  action-ResolvedTo (simple c) r e p f els was is =
      rw (lt→ltb _ _ lt) (written r c f els (ground (arith, is, ap release_code e)), refl)
  action-ResolvedTo (macro ms) r e p f els was is = (
    record {
      waiting = f.waiting;
      start_in = f.start_in;
      counts = f.counts;
      root = f.root;
      current = f.current;
      releases = λ c c_lt. elim (Bool-cases (ev.code == c)) [
        | inl here ↦
            rw (sym ((==_iff _ _).0 here))
              (f.releases ev.code lt ∙ ground (arith, was, is, ap release_code e))
        | inr other ↦ rw (els c (ground arith)) (f.releases c c_lt)
      ];
    },
    refl,
  )
  action-ResolvedTo none r e p f els was is = absurd p
  action-ResolvedTo (ref ka) r e p f els was is = absurd p
  action-ResolvedTo (dual t h mode hold_ms dtms) r e p f els was is = absurd p
  action-ResolvedTo (map m') r e p f els was is = absurd p

  pub press-ResolvedTo :
      (r : Resolver)
      → Follows m n held down r
      → Elsewhere
      → down ev.code ≡ 0
      → held ev.code ≢ 0
      → ResolvedTo m n held (on_press (m ev.code) ev) (resolve_press now r ev)
  unfolding resolve_press key_action_get
  press-ResolvedTo r f els was is = rw f.current (
      rw (lt→ltb _ _ lt) (
        action-ResolvedTo (m ev.code) _ refl (plain ev.code lt)
          (record {
            waiting = f.waiting;
            start_in = f.start_in;
            counts = f.counts;
            root = f.root;
            current = refl;
            releases = f.releases;
          })
          els was is))

  pub release-ResolvedTo :
      (r : Resolver)
      → Follows m n held down r
      → Elsewhere
      → down ev.code ≢ 0
      → held ev.code ≡ 0
      → ResolvedTo m n held (on_other (m ev.code) ev) (resolve_release r ev)
  unfolding resolve_release
  release-ResolvedTo r f els was is = rw (lt→ltb _ _ lt) (
      rw (code_down ev.code f lt was) (
        rw (plain_code _ (plain ev.code lt))
          (rw (plain_other _ ev (plain ev.code lt)) (sent_as (release_code (m ev.code) == 0)))))
    where
      sent_as :
          (b : Bool)
          → ResolvedTo m n held
              (if b then [] else record ev { code = release_code (m ev.code) } ∷ [])
              (if b
                then ok (true, record r { release_map = update r.release_map ev.code 0 }, [])
                else ok (
                  true,
                  record r { release_map = update r.release_map ev.code 0 },
                  record ev { code = release_code (m ev.code) } ∷ [],
                ))
      sent_as true = (written r 0 f els (ground arith), refl)
      sent_as false = (written r 0 f els (ground arith), refl)

  repeat-ResolvedTo :
      (r : Resolver)
      → Follows m n held held r
      → ResolvedTo m n held
          (if held ev.code == 0 then [] else on_other (m ev.code) ev)
          (resolve_repeat r ev)
  unfolding resolve_repeat
  repeat-ResolvedTo r f = rw (lt→ltb _ _ lt) (
    f,
    elim (Bool-cases (held ev.code == 0)) [
      | inl up ↦ rw (f.releases ev.code lt) (rw up refl)
      | inr is ↦ rw (code_down ev.code f lt (ground arith)) (
          rw (plain_code _ (plain ev.code lt)) (
            rw is (
              rw (plain_other _ ev (plain ev.code lt))
                (swapped _ (release_code (m ev.code) == 0)))))
    ],
  )

  pub oldest_other-ResolvedTo :
      (r : Resolver)
      → Follows m n held held r
      → value_is ev 0 ≡ false
      → value_is ev 1 ≡ false
      → is_key ev ≡ true
      → ResolvedTo m n held
          (if value_is ev 2
            then (if held ev.code == 0 then [] else on_other (m ev.code) ev)
            else [])
          (resolve_oldest now r ev)
  unfolding resolve_oldest
  oldest_other-ResolvedTo r f up press key = rw key (
      rw (le→ltb key_max ev.code (omega (arith, lt))) (rw up (rw press (by_value (value_is ev 2)))))
    where
      by_value :
          (b : Bool)
          → ResolvedTo m n held
              (if b then (if held ev.code == 0 then [] else on_other (m ev.code) ev) else [])
              (if b then resolve_repeat r ev else ok (true, r, []))
      by_value true = repeat-ResolvedTo r f
      by_value false = (f, refl)
