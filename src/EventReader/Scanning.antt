-- ===== src/EventReader/Scanning.antt =====
-- sdiol.c, `main_read`: the event that is built of the numbers of a line is the one of which the server wrote
-- them.
use keytap.Base.{
  ℕ, ◌<◌, ◌≡◌, refl, arith, append_assoc, ℤ, pos, negsuc, to_int, to_long, List, [], ◌∷◌, ◌++◌, ◌≤◌,
  All, mod-eq_of_lt,
}
use keytap.Input.{InputEvent}
use keytap.Config.Lua.{Bytes}
use keytap.Server.{format_event, to_ulong}
use keytap.Server.Decimal.{decimal}
use keytap.EventReader.{Sscanf, line_format, scan_event}
use keytap.EventReader.RoundTrip.{ReadsBack}

abbrev pub max_ulong : ℕ
max_ulong = 18446744073709551615

-- Five numbers as the format prints them, and what follows.
abbrev pub printed : ℕ → ℕ → ℕ → ℕ → ℕ → Bytes → Bytes
printed a b c d e rest =
    decimal a
    ++ (b':'
        ∷ (decimal b
            ++ (b':'
                ∷ (decimal c ++ (b':' ∷ (decimal d ++ (b':' ∷ (decimal e ++ (b'\n' ∷ rest)))))))))

-- By this format `sscanf` reads back five numbers of the type `unsigned long`, whatever follows.
abbrev pub ReadsNumbers : Sscanf → Type 0
ReadsNumbers sscanf =
    (a b c d e : ℕ) (rest : Bytes)
    → a ≤ max_ulong
    → b ≤ max_ulong
    → c ≤ max_ulong
    → d ≤ max_ulong
    → e ≤ max_ulong
    → sscanf line_format (printed a b c d e rest) ≡ a ∷ b ∷ c ∷ d ∷ e ∷ []

-- The numbers of 32 bits and of 64 bits with a sign.
abbrev pub IsInt : ℤ → Type 0
IsInt (pos n) = n < 2147483648
IsInt (negsuc n) = n < 2147483648

abbrev pub IsLong : ℤ → Type 0
IsLong (pos n) = n < 9223372036854775808
IsLong (negsuc n) = n < 9223372036854775808

-- The fields of `struct input_event` hold the event.
pub record FitsFields (ev : InputEvent) : Type 0 where
  pub type : ev.type < 65536
  pub code : ev.code < 65536
  pub value : IsInt ev.value
  pub sec : IsLong ev.time.tv_sec
  pub usec : IsLong ev.time.tv_usec

to_int-to_ulong : (a : ℤ) → IsInt a → to_int (pos (to_ulong a)) ≡ a
unfolding to_int
to_int-to_ulong (pos n) h = ground (arith, h)
to_int-to_ulong (negsuc n) h = ground (arith, h)

to_long-to_ulong : (a : ℤ) → IsLong a → to_long (to_ulong a) ≡ a
unfolding to_long
to_long-to_ulong (pos n) h = ground (arith, h)
to_long-to_ulong (negsuc n) h = ground (arith, h)

to_ulong_le : (a : ℤ) → to_ulong a ≤ max_ulong
to_ulong_le (pos n) = omega arith
to_ulong_le (negsuc n) = omega arith

-- The line of an event, and what follows, are its numbers as printed.
format_event-printed :
    (ev : InputEvent) (rest : Bytes)
    → format_event ev ++ rest
      ≡ printed ev.type
          (to_ulong ev.value)
          ev.code
          (to_ulong ev.time.tv_sec)
          (to_ulong ev.time.tv_usec)
          rest
unfolding format_event
format_event-printed ev rest = simp append_assoc

-- The event that the reader builds of the line that the server wrote for an event is this event.
pub scan_event-format_event :
    (sscanf : Sscanf) (ev : InputEvent) → ReadsNumbers sscanf → FitsFields ev → ReadsBack sscanf ev
unfolding scan_event
scan_event-format_event sscanf ev reads h rest =
    rw
      (
        format_event-printed ev rest,
        reads ev.type (to_ulong ev.value) ev.code (to_ulong ev.time.tv_sec)
            (to_ulong ev.time.tv_usec) rest (omega (arith, h.type)) (to_ulong_le ev.value)
            (omega (arith, h.code)) (to_ulong_le ev.time.tv_sec) (to_ulong_le ev.time.tv_usec),
        to_int-to_ulong ev.value h.value,
        to_long-to_ulong ev.time.tv_sec h.sec,
        to_long-to_ulong ev.time.tv_usec h.usec,
        mod-eq_of_lt h.type,
        mod-eq_of_lt h.code,
      )
      refl

pub each-ReadsBack :
    (sscanf : Sscanf) (evs : List InputEvent)
    → ReadsNumbers sscanf
    → All FitsFields evs
    → All (ReadsBack sscanf) evs
each-ReadsBack sscanf [] reads h = tt
each-ReadsBack sscanf (ev ∷ evs) reads h =
    (scan_event-format_event sscanf ev reads h.0, each-ReadsBack sscanf evs reads h.1)
