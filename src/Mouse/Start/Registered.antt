-- ===== src/Mouse/Start/Registered.antt =====
-- The registration of the mouse's driver, kernel/src/arch/x86/mouse.c, in the registry of
-- kernel/src/drivers/driversys.c.
use freecore.Prelude.{
  ℕ, ◌<◌, ◌≡◌, ◌≢◌, refl, arith, true, false, ◌==◌, leb, ◌⊎◌, inl, inr, some, ℤ, pos, minus_one,
  sym, subst,
}
use freecore.Memory.{Ptr, null}
use freecore.Drivers.Types.{max_drivers_per_class, ready, error, DriverOps, Registry}
use freecore.Drivers.Registry.{probed, in_registry, entered, device_driver_register}
use freecore.Descriptors.Idt.{Idt, exception_handler_wrapper, in_idt}
use freecore.Mouse.Packet.{Mouse, mouse_handler}
use freecore.Mouse.Start.{
  in_world, mouse_int_vector, ps2_mouse_init, ps2_mouse_probe_driver, ps2_mouse_ops,
  ps2_mouse_driver, ps2_mouse_register_driver,
}
use freecore.Mouse.Packet.Framing.{IsMouse}
use freecore.Mouse.Start.Sound.{IsRunning, ps2_mouse_init-IsRunning}

module _ {W : Type 0} (inb : ℕ → W → ℕ × W) (outb : ℕ → ℕ → W → W) where
  -- A mouse that has been set up, sound and at rest, with the driver's handler the one that
  -- `exception_handler_wrapper` calls for its vector.
  abbrev pub IsHandled : Idt (Mouse W) → Type 0
  IsHandled i =
      IsRunning i.machine
      × IsMouse i.machine
      × (exception_handler_wrapper mouse_int_vector i
          ≡ in_idt i (some (mouse_handler inb outb i.machine)))

  -- The driver at `p` is in error and the handlers of the interrupts are those of `i`; or it is ready, the
  -- variables of the driver are those of a mouse at rest that has been set up, and the mouse's vector is
  -- handled by the driver.
  pub IsReadyOrError : Ptr → Idt (Mouse W) → Registry (Idt (Mouse W)) → Type 0
  IsReadyOrError p i s =
      (((s.world.drivers p).state ≡ error)
        × (s.world.rest.exception_handlers ≡ i.exception_handlers))
      ⊎ (((s.world.drivers p).state ≡ ready) × IsHandled s.world.rest)

  probed-IsReadyOrError :
      (p : Ptr) (i : Idt (Mouse W)) (s : Registry (Idt (Mouse W))) (z : ℤ) (j : Idt (Mouse W))
      → ((z ≡ minus_one) × (j.exception_handlers ≡ i.exception_handlers))
        ⊎ ((z ≡ pos 0) × IsHandled j)
      → IsReadyOrError p i (probed p (in_registry s (in_world s.world (z, j)))).1
  unfolding IsReadyOrError
  probed-IsReadyOrError p i s z j (inl h) =
      let here : (p == p) ≡ true = ground arith in simp h.0 (inl (simp here refl, h.1))
  probed-IsReadyOrError p i s z j (inr h) =
      let here : (p == p) ≡ true = ground arith in simp h.0 (inr (simp here refl, h.1))

module _ {W : Type 0} (inb : ℕ → W → ℕ × W) (outb : ℕ → ℕ → W → W) where
  -- The registration of the mouse's driver, in a class with room, leaves the driver ready, with its
  -- variables those of a mouse at rest that has been set up and the mouse's vector handled by the driver, or
  -- in error with the handlers of the interrupts as they were.
  pub ps2_mouse_register_driver-IsReadyOrError :
      (ops_at : Ptr → DriverOps (Idt (Mouse W))) (p ops : Ptr) (s : Registry (Idt (Mouse W)))
      → p ≢ null
      → ops ≢ null
      → s.world.drivers p ≡ ps2_mouse_driver ops
      → ops_at ops ≡ ps2_mouse_ops inb outb
      → s.driver_count 4 < max_drivers_per_class
      → IsReadyOrError inb outb p s.world.rest (ps2_mouse_register_driver inb outb ops_at p s)
  unfolding ps2_mouse_register_driver device_driver_register ps2_mouse_probe_driver
  ps2_mouse_register_driver-IsReadyOrError ops_at p ops s there real driver table room =
      let e1 : (p == null) ≡ false = ground arith in
      let e2 : leb max_drivers_per_class (s.driver_count 4) ≡ false = ground arith in
      let e3 : (ops == null) ≡ false = ground arith in
      let r = ps2_mouse_init inb outb s.world.rest in
      let started : ((r.0 ≡ minus_one) × (r.1.exception_handlers ≡ s.world.rest.exception_handlers))
          ⊎ ((r.0 ≡ pos 0) × IsHandled inb outb r.1) =
        elim (ps2_mouse_init-IsRunning inb outb s.world.rest) [
          | inl h ↦ inl (h.0, h.1)
          | inr h ↦ inr (h.0, (h.1, h.2, h.3))
        ] in
      let run : device_driver_register ops_at p s
          ≡ probed p (in_registry (entered p 4 s) (in_world (entered p 4 s).world r)) =
        simp (driver, e1, e2, e3, table) refl in
      subst (λ a. IsReadyOrError inb outb p s.world.rest a.1) (sym run)
        (probed-IsReadyOrError inb outb p s.world.rest (entered p 4 s) r.0 r.1 started)
