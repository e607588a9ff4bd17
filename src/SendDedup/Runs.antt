-- ===== src/SendDedup/Runs.antt =====
-- Runs of `send_dedup`, one after the other.
use keytap.Base.{refl, [], List, Option, ◌≡◌, ◌++◌, some, ok, ◌∷◌, >>=-eq-ok, none, some}
use keytap.Input.{InputEvent}
use keytap.SendDedup.{SendDedup, prepend, send_dedup, send_all}

-- Some events were given to the deduper in turn, and it passed `out` on.
pub record Passed (d d' : SendDedup) (out : List InputEvent) : Type 0 where
  pub given : List InputEvent
  pub run : send_all d given ≡ ok (d', out)

prepend-append :
    (o : Option InputEvent) (xs ys : List InputEvent) → prepend o (xs ++ ys) ≡ prepend o xs ++ ys
prepend-append none xs ys = refl
prepend-append (some ev) xs ys = refl

pub send_all-append :
    (xs ys : List InputEvent) (d d' d'' : SendDedup) (out out' : List InputEvent)
    → send_all d xs ≡ ok (d', out)
    → send_all d' ys ≡ ok (d'', out')
    → send_all d (xs ++ ys) ≡ ok (d'', out ++ out')
unfolding send_all
send_all-append [] ys d d' d'' out out' e f =
    let same : d ≡ d' = cc in let nothing : out ≡ [] = cc in rw (same, nothing) f
send_all-append (ev ∷ xs) ys d d' d'' out out' e f =
    let ((d1, o), first, later) = >>=-eq-ok (send_dedup d ev) _ e in
    let ((d2, more), rest, last) = >>=-eq-ok (send_all d1 xs) _ later in
    let ends : d2 ≡ d' = cc in
    let whole : prepend o more ≡ out = cc in
    let both : send_all d1 (xs ++ ys) ≡ ok (d'', more ++ out') =
      send_all-append xs ys d1 d' d'' more out' (rw (← ends) rest) f in
    rw (first, both, prepend-append o more out', whole) refl

pub Passed-refl : (d : SendDedup) → Passed d d []
unfolding send_all
Passed-refl d = record { given = []; run = refl }

pub Passed-append :
    {d d' d'' : SendDedup} {out out' : List InputEvent}
    → Passed d d' out
    → Passed d' d'' out'
    → Passed d d'' (out ++ out')
Passed-append {d} {d'} {d''} {out} {out'} p q = record {
  given = p.given ++ q.given;
  run = send_all-append p.given q.given d d' d'' out out' p.run q.run;
}
