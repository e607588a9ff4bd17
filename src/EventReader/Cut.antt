-- ===== src/EventReader/Cut.antt =====
-- What the server writes, cut anywhere: whole lines, and the beginning of one.
use keytap.Base.{
  ◌==◌, false, ◌/◌, ◌%◌, ℕ, zero, suc, ◌+◌, ◌≤◌, ◌≡◌, refl, arith, ap, ap₂, sym, ◌∙◌, subst, List,
  [], ◌∷◌, ◌++◌, append_assoc, length, length-append, ◌/◌, ◌==◌, false, ◌%◌,
}
use keytap.Input.{InputEvent}
use keytap.Config.Lua.{Bytes}
use keytap.Server.{format_event, to_ulong}
use keytap.Server.Decimal.{digits_from, decimal}
use keytap.EventReader.Laws.{NoNewline}
use keytap.EventReader.RoundTrip.{format_event-OneLine, text_of}

length-digits_from : (rounds n : ℕ) → length (digits_from rounds n) ≤ rounds
unfolding digits_from
length-digits_from zero n = omega arith
length-digits_from (suc rounds) n = ground (
  arith,
  length-digits_from rounds (n / 10),
  length-append (digits_from rounds (n / 10)) ((b'0' + n % 10) ∷ []),
)

length-decimal : (n : ℕ) → length (decimal n) ≤ 64
unfolding decimal
length-decimal n = length-digits_from 64 n

length-field : (n k : ℕ) (cs : Bytes) → length cs ≤ k → length (decimal n ++ (b':' ∷ cs)) ≤ k + 65
length-field n k cs h = omega (arith, h, length-append (decimal n) (b':' ∷ cs), length-decimal n)

-- A line of the server is much shorter than half the buffer.
length-format_event : (ev : InputEvent) → length (format_event ev) ≤ 325
unfolding format_event
length-format_event ev = length-field ev.type 260 _ (
    length-field (to_ulong ev.value) 195 _ (
      length-field ev.code 130 _ (
        length-field (to_ulong ev.time.tv_sec) 65 _ (
          omega (
            arith,
            length-append (decimal (to_ulong ev.time.tv_usec)) (b'\n' ∷ []),
            length-decimal (to_ulong ev.time.tv_usec),
          )))))

-- A beginning of what the server writes: some whole lines, and a beginning of the next.
pub record Cut (xs ys : Bytes) (evs : List InputEvent) : Type 0 where
  pub whole : List InputEvent
  pub later : List InputEvent
  pub tail : Bytes
  pub events : evs ≡ whole ++ later
  pub beginning : xs ≡ text_of whole ++ tail
  pub remainder : tail ++ ys ≡ text_of later
  pub clean : NoNewline tail
  pub short : length tail ≤ 325

-- Two ways to write a text: one is longer.
data Longer (xs ys zs ws : Bytes) : Type 0 where
  first_longer : (ms : Bytes) → xs ≡ zs ++ ms → ms ++ ys ≡ ws → Longer xs ys zs ws
  first_shorter :
      (m : ℕ) (ms : Bytes) → zs ≡ xs ++ (m ∷ ms) → ys ≡ (m ∷ ms) ++ ws → Longer xs ys zs ws

compare_texts : (xs ys zs ws : Bytes) → xs ++ ys ≡ zs ++ ws → Longer xs ys zs ws
compare_texts xs ys [] ws e = first_longer xs refl e
compare_texts [] ys (z ∷ zs) ws e = first_shorter z zs refl e
compare_texts (x ∷ xs) ys (z ∷ zs) ws e =
    let heads : x ≡ z = cc in
    let tails : xs ++ ys ≡ zs ++ ws = cc in longer heads (compare_texts xs ys zs ws tails)
  where
    longer : x ≡ z → Longer xs ys zs ws → Longer (x ∷ xs) ys (z ∷ zs) ws
    longer h (first_longer ms p q) = first_longer ms (ap₂ ◌∷◌ h p) q
    longer h (first_shorter m ms p q) = first_shorter m ms (ap₂ ◌∷◌ (sym h) p) q

-- A proper beginning of a line has no newline.
beginning_clean :
    (xs : Bytes) (m : ℕ) (ms line : Bytes)
    → line ++ (b'\n' ∷ []) ≡ xs ++ (m ∷ ms)
    → NoNewline line
    → NoNewline xs
beginning_clean [] m ms line e c = tt
beginning_clean (x ∷ xs) m ms [] e c =
    let bad : [] ≡ xs ++ (m ∷ ms) = cc in
    absurd (omega (arith, ap length bad, length-append xs (m ∷ ms)))
beginning_clean (x ∷ xs) m ms (l ∷ line) e c =
    let heads : l ≡ x = cc in
    (subst (λ k. (k == b'\n') ≡ false) heads c.0, beginning_clean xs m ms line (cc) c.1)

pub cut : (evs : List InputEvent) (xs ys : Bytes) → xs ++ ys ≡ text_of evs → Cut xs ys evs
cut [] [] ys e = record {
  whole = [];
  later = [];
  tail = [];
  events = refl;
  beginning = refl;
  remainder = e;
  clean = tt;
  short = omega arith;
}
cut [] (x ∷ xs) ys e = cc
cut (ev ∷ evs) xs ys e =
    cut_line (compare_texts xs ys (format_event ev) (text_of evs) e) (λ ms q. cut evs ms ys q)
  where
    cut_line :
        Longer xs ys (format_event ev) (text_of evs)
        → ((ms : Bytes) → ms ++ ys ≡ text_of evs → Cut ms ys evs)
        → Cut xs ys (ev ∷ evs)
    cut_line (first_longer ms p q) ih =
        let c = ih ms q in
        record {
          whole = ev ∷ c.whole;
          later = c.later;
          tail = c.tail;
          events = ap (◌∷◌ ev) c.events;
          beginning =
              p
              ∙ ap (λ t. format_event ev ++ t) c.beginning
              ∙ sym (append_assoc (format_event ev) (text_of c.whole) c.tail);
          remainder = c.remainder;
          clean = c.clean;
          short = c.short;
        }
    cut_line (first_shorter m ms p q) ih =
        let o = format_event-OneLine ev in
        record {
          whole = [];
          later = ev ∷ evs;
          tail = xs;
          events = refl;
          beginning = refl;
          remainder = e;
          clean = beginning_clean xs m ms o.line (sym o.ends ∙ p) o.clean;
          short = omega (arith, ap length p, length-append xs (m ∷ ms), length-format_event ev);
        }
