-- ===== src/Devices/Places.antt =====
-- A keyboard of the serve loop names its grab by the grab's place in the configuration. Here are the places that
-- `check_grabs` chooses, and the keymaps that stand there.
use keytap.Base.{
  ℕ, zero, suc, ◌≡◌, refl, sym, ap, ap₂, true, false, Bool, Bool-cases, inl, inr, if◌then◌else◌,
  ltb, Option, List, [], ◌∷◌, ◌++◌, map, length, All, subst, ◌∙◌, length-map, if-cases, map-append,
}
use keytap.KeyAction.{KeyAction}
use keytap.Config.Lua.{Bytes, Names}
use keytap.Config.Grabs.{Regexes, Grab, UsableGrab}
use keytap.Devices.{
  max_kbs, Device, check_grabs, Keyboard, take_over, open_fd, open_input, add_keyboard,
  open_devices,
}
use keytap.ServeLoop.Keyboards.{Kbd}
use keytap.ServeLoop.Rounds.{add_found}
use keytap.ServeLoop.Adding.{FoundUsable}

module _ (re : Regexes) where
  open re use {matches}

  -- The place of the first grab whose pattern matches.
  abbrev pub place_of : List (Grab re) → Bytes → ℕ
  place_of [] name = 0
  place_of (g ∷ gs) name = if matches g.regex name then 0 else suc (place_of gs name)

  -- The keymap that stands at a place.
  abbrev pub keymap_at : List (Grab re) → ℕ → KeyAction
  keymap_at [] i = KeyAction.none
  keymap_at (g ∷ gs) zero = g.keymap
  keymap_at (g ∷ gs) (suc i) = keymap_at gs i

  -- A keyboard that `open_input` gives for a device, as the serve loop names it.
  abbrev pub placed : List (Grab re) → Bytes → Option (Keyboard re) → Option Kbd
  placed gs name Option.none = Option.none
  placed gs name (Option.some kb) = Option.some (record { fd = kb.fd; grab = place_of gs name })

  abbrev pub kbd_of : List (Grab re) → Device → Option Kbd
  kbd_of gs d = placed gs d.name (open_input re gs d).keyboard

  check_grabs-keymap_at :
      (names : Names) (gs : List (Grab re)) (name : Bytes) (g : Grab re)
      → All (UsableGrab re names) gs
      → check_grabs re gs name ≡ Option.some g
      → (keymap_at gs (place_of gs name) ≡ g.keymap) × (g.ignore ≡ false) × UsableGrab re names g
  unfolding check_grabs
  check_grabs-keymap_at names [] name g u e = cc
  check_grabs-keymap_at names (g' ∷ gs) name g u e =
      here (matches g'.regex name) (check_grabs-keymap_at names gs name g u.1) e
    where
      chosen :
          (ignore : Bool)
          → g'.ignore ≡ ignore
          → (if ignore then Option.none else Option.some g') ≡ Option.some g
          → (g'.keymap ≡ g.keymap) × (g.ignore ≡ false) × UsableGrab re names g
      chosen true i same = cc
      chosen false i same =
          let it : g' ≡ g = cc in
          (
            ap (λ (x : Grab re). x.keymap) it,
            sym (ap (λ (x : Grab re). x.ignore) it) ∙ i,
            subst (UsableGrab re names) it u.0,
          )

      here :
          (b : Bool)
          → (check_grabs re gs name ≡ Option.some g
              → (keymap_at gs (place_of gs name) ≡ g.keymap)
                × (g.ignore ≡ false)
                × UsableGrab re names g)
          → (if b
              then (if g'.ignore then Option.none else Option.some g')
              else check_grabs re gs name)
            ≡ Option.some g
          → (keymap_at (g' ∷ gs) (if b then 0 else suc (place_of gs name)) ≡ g.keymap)
            × (g.ignore ≡ false)
            × UsableGrab re names g
      here true later same = chosen g'.ignore refl same
      here false later same = later same

  -- What `open_input` gives is a keyboard with the grab that `check_grabs` chose, if it gives one.
  abbrev OfChosen : List (Grab re) → Bytes → Option (Keyboard re) → Type 0
  OfChosen gs name Option.none = Unit
  OfChosen gs name (Option.some kb) = check_grabs re gs name ≡ Option.some kb.grab

  open_input-OfChosen :
      (gs : List (Grab re)) (d : Device) → OfChosen gs d.name (open_input re gs d).keyboard
  unfolding open_input
  open_input-OfChosen gs d = opened d.fd
    where
      taken :
          (fd : ℕ) (grabs : Bool) (g : Option (Grab re))
          → check_grabs re gs d.name ≡ g
          → OfChosen gs d.name (take_over re fd grabs g).keyboard
      taken fd grabs Option.none e = tt
      taken fd true (Option.some g) e = e
      taken fd false (Option.some g) e = tt

      opened : (fd : Option ℕ) → OfChosen gs d.name (open_fd re gs d fd).keyboard
      opened Option.none = tt
      opened (Option.some fd) = taken fd d.grabs (check_grabs re gs d.name) refl

  -- Where the grabs that are not ignored have filled keymaps, every keyboard that opens has one.
  pub kbd_of-FoundUsable :
      (names : Names) (gs : List (Grab re)) (d : Device)
      → All (UsableGrab re names) gs
      → FoundUsable (keymap_at gs) (kbd_of gs d)
  kbd_of-FoundUsable names gs d u =
      of_chosen (open_input re gs d).keyboard (open_input-OfChosen gs d)
    where
      of_chosen :
          (kb : Option (Keyboard re))
          → OfChosen gs d.name kb
          → FoundUsable (keymap_at gs) (placed gs d.name kb)
      of_chosen Option.none e = tt
      of_chosen (Option.some kb) e =
          let (same, listed, filled) = check_grabs-keymap_at names gs d.name kb.grab u e in
          rw same (filled listed)

  -- What a resolver gets of a keyboard.
  abbrev pub seen : Keyboard re → ℕ × KeyAction
  seen kb = (kb.fd, kb.grab.keymap)

  abbrev pub seen_at : List (Grab re) → Kbd → ℕ × KeyAction
  seen_at gs k = (k.fd, keymap_at gs k.grab)

  -- Where the grabs that are not ignored have filled keymaps: the keyboards that `open_inputs` opens for some devices have the
  -- same descriptors and keymaps, in the same order, as those that the serve loop gets by adding what the devices
  -- open as, with a grab named by its place, to the keyboards that it has, if those had the same before.
  pub open_devices-add_found :
      (names : Names) (gs : List (Grab re)) (ds : List Device) (kbs : List (Keyboard re))
      (ks : List Kbd)
      → All (UsableGrab re names) gs
      → map seen kbs ≡ map (seen_at gs) ks
      → map seen (open_devices re gs kbs ds) ≡ map (seen_at gs) (add_found (map (kbd_of gs) ds) ks)
  unfolding open_devices add_found
  open_devices-add_found names gs [] kbs ks u e = e
  open_devices-add_found names gs (d ∷ ds) kbs ks u e =
      one (open_input re gs d).keyboard (open_input-OfChosen gs d)
        (λ kbs' ks' e'. open_devices-add_found names gs ds kbs' ks' u e')
    where
      lengths : length kbs ≡ length ks
      lengths = sym (length-map seen kbs) ∙ ap length e ∙ length-map (seen_at gs) ks

      one :
          (kb : Option (Keyboard re))
          → OfChosen gs d.name kb
          → ((kbs' : List (Keyboard re)) (ks' : List Kbd)
              → map seen kbs' ≡ map (seen_at gs) ks'
              → map seen (open_devices re gs kbs' ds)
                ≡ map (seen_at gs) (add_found (map (kbd_of gs) ds) ks'))
          → map seen (
              open_devices re gs
                (if ltb (length kbs) max_kbs then add_keyboard re kbs kb else kbs)
                ds)
            ≡ map (seen_at gs) (add_found (placed gs d.name kb ∷ map (kbd_of gs) ds) ks)
      one Option.none c ih =
          if-cases
            (λ x.
              map seen (open_devices re gs x ds)
              ≡ map (seen_at gs) (add_found (map (kbd_of gs) ds) ks))
            (ltb (length kbs) max_kbs) kbs kbs (λ _. ih kbs ks e) (λ _. ih kbs ks e)
      one (Option.some kb) c ih = elim (Bool-cases (ltb (length ks) max_kbs)) [
        | inl room ↦ rw lengths (
            rw (room, add_found)
              (ih (kbs ++ (kb ∷ [])) (ks ++ (record { fd = kb.fd; grab = place_of gs d.name } ∷ []))
                (map-append seen kbs (kb ∷ [])
                  ∙ ap₂ (◌++◌) e (
                      ap (λ x. (kb.fd, x) ∷ [])
                        (sym (check_grabs-keymap_at names gs d.name kb.grab u c).0))
                  ∙ sym (map-append (seen_at gs) ks _))))
        | inr full ↦ rw lengths (rw (full, add_found) (ih kbs ks e))
      ]
