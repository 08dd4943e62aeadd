-- ===== src/Mouse/Start/Sound.antt =====
-- What the start of the mouse in kernel/src/arch/x86/mouse.c leaves, by the answers of the mouse.
use freecore.Prelude.{
  ℕ, ◌≡◌, refl, arith, Bool, true, false, ◌&&◌, ◌||◌, ◌==◌, if◌then◌else◌, some, ◌⊎◌, inl, inr,
  Bool-cases, ℤ, pos, negsuc, minus_one, ap, ◌∙◌, subst, sym,
}
use freecore.Descriptors.Idt.{Idt, idt_register_handler, exception_handler_wrapper, in_idt}
use freecore.Descriptors.Idt.Gates.{exception_handler_wrapper-register}
use freecore.Mouse.Packet.{MouseState, Mouse, mouse_handler}
use freecore.Mouse.Packet.Framing.{IsMouse, IsCoordinate, IsOnScreen}
use freecore.Mouse.Ports.{
  mouse_resp_ack, mouse_resp_self_test, mouse_resp_id_5btn, mouse_cmd_default, mouse_cmd_enable,
  mouse_cmd_reset, mouse_send_command, read_answer,
}
use freecore.Mouse.Start.{
  mouse_int_vector, no_state, ps2_mouse_set_sample_rate, ps2_mouse_set_resolution, ask_id,
  three_rates, mouse_enable_scroll_wheel, mouse_enable_5_button, detect_mouse, enable_mouse,
  start_mouse, ps2_mouse_register_handler, started, ps2_mouse_init, set_controller,
}

-- The size of the packets that a kind of mouse sends.
pub size_of : MouseState → ℕ
size_of m = if m.has_scroll_wheel || m.has_5_buttons then 4 else 3

module _ {W : Type 0} where
  -- A mouse at rest: between packets, of the size of its kind, which is one at most, at the position 0.
  pub record IsAtRest (s : Mouse W) : Type 0 where
    pub index : s.mouse_packet_index ≡ 0
    pub size : s.mouse_packet_size ≡ size_of s.mouse_state
    pub kind : (s.mouse_state.has_scroll_wheel && s.mouse_state.has_5_buttons) ≡ false
    pub position : (s.mouse_state.x ≡ pos 0) × (s.mouse_state.y ≡ pos 0) × (s.mouse_state.z ≡ pos 0)

  IsAtRest-IsMouse : (s : Mouse W) → IsAtRest s → IsMouse s
  unfolding IsOnScreen size_of
  IsAtRest-IsMouse s h =
      elim (Bool-cases (s.mouse_state.has_scroll_wheel || s.mouse_state.has_5_buttons)) [
        | inl e ↦
            let size : s.mouse_packet_size ≡ 4 = h.size ∙ ap (λ b. if b then 4 else 3) e in
            record {
              size = omega arith;
              index = omega (arith, h.index);
              position = (
                subst IsCoordinate (sym h.position.0) (omega arith),
                subst IsCoordinate (sym h.position.1) (omega arith),
              );
            }
        | inr e ↦
            let size : s.mouse_packet_size ≡ 3 = h.size ∙ ap (λ b. if b then 4 else 3) e in
            record {
              size = omega arith;
              index = omega (arith, h.index);
              position = (
                subst IsCoordinate (sym h.position.0) (omega arith),
                subst IsCoordinate (sym h.position.1) (omega arith),
              );
            }
      ]

  -- A mouse at rest as a wheel was looked for: no side buttons are known.
  record IsNew (s : Mouse W) : Type 0 where
    index : s.mouse_packet_index ≡ 0
    few : s.mouse_state.has_5_buttons ≡ false
    position : (s.mouse_state.x ≡ pos 0) × (s.mouse_state.y ≡ pos 0) × (s.mouse_state.z ≡ pos 0)

  -- A mouse at rest, with the driver's rate and resolution.
  pub record IsRunning (s : Mouse W) : Type 0 where
    pub rest : IsAtRest s
    pub rate : s.mouse_state.sample_rate ≡ 100
    pub resolution : s.mouse_state.resolution ≡ 2

module _ {W : Type 0} (inb : ℕ → W → ℕ × W) (outb : ℕ → ℕ → W → W) where
  scroll_wheel-IsNew :
      (s : Mouse W)
      → IsNew s
      → IsNew (mouse_enable_scroll_wheel inb outb s)
        × ((mouse_enable_scroll_wheel inb outb s).mouse_packet_size ≡ (
            if (mouse_enable_scroll_wheel inb outb s).mouse_state.has_scroll_wheel then 4 else 3))
  unfolding mouse_enable_scroll_wheel ps2_mouse_set_sample_rate
  scroll_wheel-IsNew s h = (record { index = h.index; few = h.few; position = h.position }, refl)

  5_button-IsAtRest :
      (s : Mouse W)
      → IsNew s
      → s.mouse_packet_size ≡ 3
      → s.mouse_state.has_scroll_wheel ≡ false
      → IsAtRest (mouse_enable_5_button inb outb s)
  unfolding mouse_enable_5_button ps2_mouse_set_sample_rate size_of
  5_button-IsAtRest s h size plain =
      elim (Bool-cases
        ((ask_id inb outb (three_rates inb outb 200 200 80 s).ports).0 == mouse_resp_id_5btn)) [
          | inl e ↦ rw e (record {
            index = h.index;
            size = rw plain refl;
            kind = rw plain refl;
            position = h.position;
          })
          | inr e ↦ rw e (record {
            index = h.index;
            size = rw (plain, h.few) size;
            kind = rw plain refl;
            position = h.position;
          })
        ]

  IsNew-IsAtRest :
      (m : Mouse W)
      → IsNew m
      → m.mouse_packet_size ≡ 4
      → m.mouse_state.has_scroll_wheel ≡ true
      → IsAtRest m
  unfolding size_of
  IsNew-IsAtRest m h size wheel = record {
    index = h.index;
    size = rw wheel size;
    kind = rw wheel h.few;
    position = h.position;
  }

  detect_mouse-IsAtRest : (s : Mouse W) → IsNew s → IsAtRest (detect_mouse inb outb s)
  unfolding detect_mouse
  detect_mouse-IsAtRest s h =
      let scroll = mouse_enable_scroll_wheel inb outb s in
      let new = scroll_wheel-IsNew s h in
      let Rest : Bool → Type 0 =
        λ b. IsAtRest (if b then scroll else mouse_enable_5_button inb outb scroll) in
      elim (Bool-cases scroll.mouse_state.has_scroll_wheel) [
        | inl e ↦
            subst Rest (sym e)
              (IsNew-IsAtRest scroll new.0 (new.1 ∙ ap (λ b. if b then 4 else 3) e) e)
        | inr e ↦
            subst Rest (sym e)
              (5_button-IsAtRest scroll new.0 (new.1 ∙ ap (λ b. if b then 4 else 3) e) e)
      ]

  enable_mouse-IsRunning :
      (s : Mouse W)
      → IsAtRest s
      → ((enable_mouse inb outb s).0 ≡ minus_one)
        ⊎ (((enable_mouse inb outb s).0 ≡ pos 0) × IsRunning (enable_mouse inb outb s).1)
  unfolding enable_mouse ps2_mouse_set_sample_rate ps2_mouse_set_resolution size_of
  enable_mouse-IsRunning s h =
      let (first, w1) = mouse_send_command inb outb mouse_cmd_default s.ports in
      let (second, w2) = mouse_send_command inb outb mouse_cmd_enable w1 in
      elim (Bool-cases (first == mouse_resp_ack)) [
        | inr e ↦ rw e (inl refl)
        | inl e ↦ elim (Bool-cases (second == mouse_resp_ack)) [
          | inr e' ↦ rw (e, e') (inl refl)
          | inl e' ↦
              rw (e, e')
                (inr (
                  refl,
                  record {
                    rest = record {
                      index = h.index;
                      size = h.size;
                      kind = h.kind;
                      position = h.position;
                    };
                    rate = refl;
                    resolution = refl;
                  },
                ))
        ]
      ]

  start_mouse-IsRunning :
      (s : Mouse W)
      → ((start_mouse inb outb s).0 ≡ minus_one)
        ⊎ (((start_mouse inb outb s).0 ≡ pos 0) × IsRunning (start_mouse inb outb s).1)
  unfolding start_mouse
  start_mouse-IsRunning s =
      let cleared = record s { mouse_state = no_state; mouse_packet_index = 0 } in
      let (response, w1) =
        mouse_send_command inb outb mouse_cmd_reset (set_controller inb outb cleared.ports) in
      let (self_test, w2) = read_answer inb outb w1 in
      let (device_id, w3) = read_answer inb outb w2 in
      let new : IsNew (record cleared { ports = w3 }) = record {
        index = refl;
        few = refl;
        position = (refl, refl, refl);
      } in
      let done =
        enable_mouse-IsRunning (detect_mouse inb outb (record cleared { ports = w3 }))
          (detect_mouse-IsAtRest (record cleared { ports = w3 }) new) in
      elim (Bool-cases (response == mouse_resp_ack)) [
        | inr e ↦ rw e (inl refl)
        | inl e ↦ elim (Bool-cases (self_test == mouse_resp_self_test)) [
          | inr e' ↦ rw (e, e') (inl refl)
          | inl e' ↦ rw (e, e') done
        ]
      ]

  -- What `ps2_mouse_init` leaves, by its result.
  Answered : Idt (Mouse W) → ℤ × Idt (Mouse W) → Type 0
  Answered s r =
      ((r.0 ≡ minus_one) × (r.1.exception_handlers ≡ s.exception_handlers))
      ⊎ ((r.0 ≡ pos 0)
          × IsRunning r.1.machine
          × IsMouse r.1.machine
          × (exception_handler_wrapper mouse_int_vector r.1
              ≡ in_idt r.1 (some (mouse_handler inb outb r.1.machine))))

  started-Answered :
      (s : Idt (Mouse W)) (z : ℤ) (m : Mouse W)
      → (z ≡ minus_one) ⊎ ((z ≡ pos 0) × IsRunning m)
      → Answered s (started inb outb s (z, m))
  unfolding Answered ps2_mouse_register_handler idt_register_handler
  started-Answered s (pos n) m (inl e) = absurd (cc)
  started-Answered s (negsuc n) m (inl e) = inl (e, refl)
  started-Answered s (pos n) m (inr h) = inr (
    h.0,
    h.1,
    IsAtRest-IsMouse m h.1.rest,
    exception_handler_wrapper-register mouse_int_vector mouse_int_vector
        (some (λ k. some (mouse_handler inb outb k))) (record s { machine = m }) (omega arith),
  )
  started-Answered s (negsuc n) m (inr h) = absurd (cc)

  -- `ps2_mouse_init` fails with the result -1 and leaves the handlers of the interrupts as they were; or
  -- its result is 0, the mouse is at rest, of one kind, with the size of its packets, its rate and
  -- resolution, and sound, and the mouse's interrupt runs the driver's handler.
  pub ps2_mouse_init-IsRunning :
      (s : Idt (Mouse W))
      → (((ps2_mouse_init inb outb s).0 ≡ minus_one)
          × ((ps2_mouse_init inb outb s).1.exception_handlers ≡ s.exception_handlers))
        ⊎ (((ps2_mouse_init inb outb s).0 ≡ pos 0)
            × IsRunning (ps2_mouse_init inb outb s).1.machine
            × IsMouse (ps2_mouse_init inb outb s).1.machine
            × (exception_handler_wrapper mouse_int_vector (ps2_mouse_init inb outb s).1
                ≡ in_idt
                    (ps2_mouse_init inb outb s).1
                    (some (mouse_handler inb outb (ps2_mouse_init inb outb s).1.machine))))
  unfolding ps2_mouse_init Answered
  ps2_mouse_init-IsRunning s =
      started-Answered s (start_mouse inb outb s.machine).0 (start_mouse inb outb s.machine).1
        (start_mouse-IsRunning s.machine)
