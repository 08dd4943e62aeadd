-- ===== src/Mouse/Tests.antt =====
-- The theorems on kernel/src/arch/x86/mouse.c at a mouse that is at rest.
use freecore.Prelude.{ℕ, refl, arith, none, [], ◌∷◌}
use freecore.Descriptors.Idt.{Idt, no_gate}
use freecore.Mouse.Packet.{Mouse, ps2_mouse_interrupt}
use freecore.Mouse.Packet.Pointer.{IsPointed, received-IsPointed}
use freecore.Mouse.Packet.Framing.{
  received, IsOnScreen, IsMouse, KeepsOnScreen, ps2_mouse_interrupt-IsMouse,
}
use freecore.Mouse.Start.{no_state}
use freecore.Memory.{Ptr, null}
use freecore.Drivers.Types.{DriverOps, Registry}
use freecore.Mouse.Start.Registered.{IsReadyOrError, ps2_mouse_register_driver-IsReadyOrError}
use freecore.Mouse.Start.{ps2_mouse_ops, ps2_mouse_driver, ps2_mouse_register_driver}

abbrev resting : Mouse ℕ
resting = record {
  mouse_state = no_state;
  mouse_callback = none;
  mouse_packet_buffer = λ i. 0;
  mouse_packet_index = 0;
  mouse_packet_size = 3;
  ports = 0;
}

resting-IsMouse : IsMouse resting
unfolding IsOnScreen
resting-IsMouse = record {
  size = (omega arith, omega arith);
  index = omega arith;
  position = (omega arith, omega arith);
}

resting-KeepsOnScreen : KeepsOnScreen resting
unfolding KeepsOnScreen
resting-KeepsOnScreen f e m w h = absurd (cc)

-- Hardware that answers every read with the same byte.
abbrev acknowledge : ℕ → ℕ → ℕ × ℕ
acknowledge port w = (0xFA, w)

abbrev no_write : ℕ → ℕ → ℕ → ℕ
no_write port byte w = w

ps2_mouse_interrupt-IsMouse_example : IsMouse (ps2_mouse_interrupt acknowledge resting)
ps2_mouse_interrupt-IsMouse_example =
    ps2_mouse_interrupt-IsMouse acknowledge resting resting-KeepsOnScreen resting-IsMouse

received-IsPointed_example : IsPointed 8 5 3 0 0 (received (8 ∷ 5 ∷ 3 ∷ []) resting)
received-IsPointed_example =
    received-IsPointed 8 5 3 [] 0 0 resting
      (record {
        first = refl;
        x_fits = refl;
        y_fits = refl;
        x_byte = omega arith;
        y_byte = omega arith;
        x_sign = refl;
        y_sign = refl;
      })
      refl (omega arith, omega arith) refl refl refl refl (omega arith) (omega arith)

abbrev no_interrupts : Idt (Mouse ℕ)
no_interrupts = record {
  idt = λ v. no_gate;
  idt_ptr = record { limit = 0; base = 0 };
  exception_handlers = λ v. none;
  machine = resting;
}

-- The table of functions of every driver is the mouse's.
abbrev all_mice : Ptr → DriverOps (Idt (Mouse ℕ))
all_mice ops = ps2_mouse_ops acknowledge no_write

abbrev no_drivers : Registry (Idt (Mouse ℕ))
no_drivers = record {
  drivers = λ c i. null;
  driver_count = λ c. 0;
  world = record { drivers = λ p. ps2_mouse_driver 9; rest = no_interrupts };
}

ps2_mouse_register_driver-IsReadyOrError_example :
    IsReadyOrError acknowledge no_write 4 no_interrupts
      (ps2_mouse_register_driver acknowledge no_write all_mice 4 no_drivers)
ps2_mouse_register_driver-IsReadyOrError_example =
    ps2_mouse_register_driver-IsReadyOrError acknowledge no_write all_mice 4 9 no_drivers
      (λ e. omega arith) (λ e. omega arith) refl refl (omega arith)
