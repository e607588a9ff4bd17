-- ===== src/ServeLoop/Keyboards.antt =====
-- sdiol.c, `serve_loop`: the pass over the keyboards in a round of the loop. A keyboard names its grab by
-- the grab's place in the configuration; keyboards with the same grab share its resolver.
use keytap.Base.{ℕ, Outcome, ok, ◌>>=◌, List, [], ◌∷◌, ◌++◌, Option, some, none, update}
use keytap.TimeUtil.{Timeval}
use keytap.Input.{InputEvent}
use keytap.Resolver.{Resolver}
use keytap.SendDedup.{SendDedup}
use keytap.ServeLoop.{Served, recv_event}

pub record Kbd : Type 0 where
  pub fd : ℕ
  pub grab : ℕ

-- What `FD_ISSET` and `read` give for a keyboard: not readable; an error with EAGAIN; another error; an
-- event, with what the clock reads while it is treated.
pub data Read : Type 0 where
  idle again gone : Read
  event : (ℕ → Timeval) → InputEvent → Read

-- The keyboards that stay, the resolvers and the deduper, the events for the application, and the descriptors
-- closed.
pub record Pass : Type 0 where
  pub kbs : List Kbd
  pub resolvers : ℕ → Resolver
  pub deduper : SendDedup
  pub out : List InputEvent
  pub closed : List ℕ

abbrev pub kept : Kbd → (ℕ → Resolver) → SendDedup → Pass
kept k rs d = record { kbs = k ∷ []; resolvers = rs; deduper = d; out = []; closed = [] }

abbrev pub received : Kbd → (ℕ → Resolver) → Option Served → Outcome (Option Pass)
received k rs none = ok none
received k rs (some s) = ok (
    some (record {
      kbs = k ∷ [];
      resolvers = update rs k.grab s.resolver;
      deduper = s.deduper;
      out = s.out;
      closed = [];
    }))

-- The body for one keyboard.
unfoldable pub serve_keyboard : Read → Kbd → (ℕ → Resolver) → SendDedup → Outcome (Option Pass)
serve_keyboard idle k rs d = ok (some (kept k rs d))
serve_keyboard again k rs d = ok (some (kept k rs d))
serve_keyboard gone k rs d =
    ok (some (record { kbs = []; resolvers = rs; deduper = d; out = []; closed = k.fd ∷ [] }))
serve_keyboard (event clock ev) k rs d = recv_event clock (rs k.grab) d ev >>= received k rs

-- A pass that goes on with another.
abbrev pub joined : Pass → Option Pass → Outcome (Option Pass)
joined s none = ok none
joined s (some t) = ok (
    some (record {
      kbs = s.kbs ++ t.kbs;
      resolvers = t.resolvers;
      deduper = t.deduper;
      out = s.out ++ t.out;
      closed = s.closed ++ t.closed;
    }))

abbrev pub then_rest :
    ((ℕ → Resolver) → SendDedup → Outcome (Option Pass)) → Option Pass → Outcome (Option Pass)
then_rest rest none = ok none
then_rest rest (some s) = rest s.resolvers s.deduper >>= joined s

-- `for(i = 0; i < n_kbs; i++)`; a keyboard that is gone leaves the array, and the index stays.
unfoldable pub serve_keyboards :
    (ℕ → Read) → List Kbd → (ℕ → Resolver) → SendDedup → Outcome (Option Pass)
unfolding serve_keyboard
serve_keyboards reads [] rs d =
    ok (some (record { kbs = []; resolvers = rs; deduper = d; out = []; closed = [] }))
serve_keyboards reads (k ∷ ks) rs d =
    serve_keyboard (reads k.fd) k rs d >>= then_rest (serve_keyboards reads ks)
