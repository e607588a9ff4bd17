-- ===== src/Devices/Laws.antt =====
-- Which grab a device gets, and how many keyboards there can be.
use keytap.Base.{
  ℕ, ◌+◌, ◌≤◌, ◌≡◌, arith, true, false, if◌then◌else◌, ltb, Option, List, [], ◌∷◌, ◌++◌, length,
  length-append, All, Bool-cases, inl, inr, ◌⊎◌,
}
use keytap.Config.Lua.{Bytes}
use keytap.Config.Grabs.{Regexes, Grab}
use keytap.Devices.{
  max_kbs, Device, check_grabs, Keyboard, open_fd, open_input, add_keyboard, open_devices,
}

module _ (re : Regexes) where
  open re use {matches}

  -- The first grab whose pattern matches the name decides for a device, whatever stands behind it: it is the
  -- grab, or says that the device is ignored.
  pub first_match_decides :
      (before : List (Grab re)) (g : Grab re) (after : List (Grab re)) (name : Bytes)
      → All (λ (b : Grab re). matches b.regex name ≡ false) before
      → matches g.regex name ≡ true
      → check_grabs re (before ++ (g ∷ after)) name
        ≡ (if g.ignore then Option.none else Option.some g)
  unfolding check_grabs
  first_match_decides [] g after name none_before m = rw m
  first_match_decides (b ∷ before) g after name none_before m =
      rw none_before.0 (first_match_decides before g after name none_before.1 m)

  -- `open_input` leaves a device open that it opened and that `check_grabs` did not choose.
  pub ignored_stays_open :
      (gs : List (Grab re)) (d : Device) (fd : ℕ)
      → d.fd ≡ Option.some fd
      → check_grabs re gs d.name ≡ Option.none
      → open_input re gs d ≡ record { keyboard = Option.none; open_fds = fd ∷ [] }
  unfolding open_input
  ignored_stays_open gs d fd opened ignored = rw (opened, open_fd, ignored)

  add_keyboard-le :
      (kbs : List (Keyboard re)) (kb : Option (Keyboard re))
      → length (add_keyboard re kbs kb) ≤ length kbs + 1
  add_keyboard-le kbs Option.none = omega arith
  add_keyboard-le kbs (Option.some kb) = omega (arith, length-append kbs (kb ∷ []))

  -- From at most `max_kbs` keyboards, opening any devices leaves at most `max_kbs`.
  pub open_devices-le :
      (gs : List (Grab re)) (ds : List Device) (kbs : List (Keyboard re))
      → length kbs ≤ max_kbs
      → length (open_devices re gs kbs ds) ≤ max_kbs
  unfolding open_devices
  open_devices-le gs [] kbs h = h
  open_devices-le gs (d ∷ ds) kbs h =
      open_devices-le gs ds _ (one (Bool-cases (ltb (length kbs) max_kbs)))
    where
      kb : Option (Keyboard re)
      kb = (open_input re gs d).keyboard

      one :
          (ltb (length kbs) max_kbs ≡ true) ⊎ (ltb (length kbs) max_kbs ≡ false)
          → length (if ltb (length kbs) max_kbs then add_keyboard re kbs kb else kbs) ≤ max_kbs
      one (inl room) = rw room (ground (arith, add_keyboard-le kbs kb))
      one (inr full) = rw full h
