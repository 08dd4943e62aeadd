-- ===== src/Mouse/Packet/Framing.antt =====
-- How kernel/src/arch/x86/mouse.c puts the bytes of the mouse together, and what keeps its state sound.
use freecore.Prelude.{
  ℕ, zero, suc, ◌+◌, ◌≤◌, ◌<◌, ◌≡◌, refl, arith, Bool, true, false, not, ◌&&◌, ◌==◌, ltb, leb,
  if◌then◌else◌, none, some, List, [], ◌∷◌, length, inl, inr, ap, ◌∙◌, Bool-cases, Option-cases, ℤ,
  pos, negsuc, int32, to_int32, ◌%◌, ◌^◌, ◌-◌, ◌+ℤ◌,
}
use freecore.Mouse.Packet.{
  MouseState, MousePacket, Mouse, has_bit, mouse_packet_always_1, packet_of, clamp, x_step, y_step,
  moved, call_back, process_mouse_packet, receive, ps2_mouse_interrupt,
}

-- The bytes as they come, one interrupt each.
pub received : {W : Type 0} → List ℕ → Mouse W → Mouse W
received [] s = s
received (b ∷ bytes) s = received bytes (receive b s)

unfoldable pub byte_at : List ℕ → ℕ → ℕ
byte_at [] i = 0
byte_at (b ∷ bytes) zero = b
byte_at (b ∷ bytes) (suc i) = byte_at bytes i

-- A coordinate that is not negative and fits an `int`.
abbrev pub IsCoordinate : ℤ → Type 0
IsCoordinate (pos n) = n < 2 ^ 31
IsCoordinate (negsuc n) = ⊥

unfoldable pub IsOnScreen : MouseState → Type 0
IsOnScreen m = IsCoordinate m.x × IsCoordinate m.y

int32-IsCoordinate : (w : ℕ) → w < 2 ^ 32 → IsCoordinate (clamp (int32 w))
int32-IsCoordinate w small = elim (Bool-cases (leb (2 ^ 31) w)) [
  | inl e ↦ let less : leb (2 ^ 32) w ≡ false = ground arith in rw (e, less) (omega arith)
  | inr e ↦ rw e (ground arith)
]

clamp-IsCoordinate : (a : ℤ) → IsCoordinate (clamp (to_int32 a))
clamp-IsCoordinate (pos n) = int32-IsCoordinate (n % 2 ^ 32) (omega arith)
clamp-IsCoordinate (negsuc n) = int32-IsCoordinate (2 ^ 32 - 1 - n % 2 ^ 32) (omega arith)

moved-IsOnScreen : (p : MousePacket) (m : MouseState) → IsOnScreen (moved p m)
unfolding IsOnScreen moved
moved-IsOnScreen p m = (clamp-IsCoordinate (m.x +ℤ x_step p), clamp-IsCoordinate (m.y +ℤ y_step p))

-- A packet of three bytes, or without the wheel, has no look at the fourth.
packet_of_same :
    (f g : ℕ → ℕ) (wheel : Bool)
    → f 0 ≡ g 0
    → f 1 ≡ g 1
    → f 2 ≡ g 2
    → (wheel ≡ true → f 3 ≡ g 3)
    → packet_of f wheel ≡ packet_of g wheel
unfolding packet_of
packet_of_same f g true e0 e1 e2 e3 = rw (e0, e1, e2, e3 refl) refl
packet_of_same f g false e0 e1 e2 e3 = rw (e0, e1, e2) refl

module _ {W : Type 0} where
  -- The next byte has its place in the buffer, of four bytes, and neither
  -- coordinate of the pointer is negative or past an `int`.
  pub record IsMouse (s : Mouse W) : Type 0 where
    pub size : (3 ≤ s.mouse_packet_size) × (s.mouse_packet_size ≤ 4)
    pub index : s.mouse_packet_index < s.mouse_packet_size
    pub position : IsOnScreen s.mouse_state

  -- The callback leaves the coordinates of the pointer so.
  unfoldable pub KeepsOnScreen : Mouse W → Type 0
  KeepsOnScreen s =
      (f : MouseState → W → MouseState × W)
      → (s.mouse_callback ≡ some f)
      → (m : MouseState) (w : W) → IsOnScreen m
      → IsOnScreen (f m w).0

  process_mouse_packet-IsOnScreen :
      (s : Mouse W) → KeepsOnScreen s → IsOnScreen (process_mouse_packet s).mouse_state
  unfolding KeepsOnScreen process_mouse_packet
  process_mouse_packet-IsOnScreen s keeps = elim (Option-cases s.mouse_callback) [
    | inl e ↦ simp e (moved-IsOnScreen _ s.mouse_state)
    | inr (f, e) ↦ simp e (keeps f e _ s.ports (moved-IsOnScreen _ s.mouse_state))
  ]

  -- Only the state and the hardware change with a packet.
  process_mouse_packet-size :
      (s : Mouse W) → (process_mouse_packet s).mouse_packet_size ≡ s.mouse_packet_size
  unfolding process_mouse_packet
  process_mouse_packet-size s = elim (Option-cases s.mouse_callback) [
    | inl e ↦ simp e refl
    | inr (f, e) ↦ simp e refl
  ]

  receive-IsMouse :
      (byte : ℕ) (s : Mouse W) → KeepsOnScreen s → IsMouse s → IsMouse (receive byte s)
  unfolding receive KeepsOnScreen
  receive-IsMouse byte s keeps h =
      elim (Bool-cases ((s.mouse_packet_index == 0) && not (has_bit byte mouse_packet_always_1))) [
        | inl e ↦ rw e h
        | inr e ↦
            let taken = record s {
              mouse_packet_buffer =
                  λ i. if i == s.mouse_packet_index then byte else s.mouse_packet_buffer i;
              mouse_packet_index = s.mouse_packet_index + 1;
            } in
            elim (Bool-cases (leb s.mouse_packet_size (s.mouse_packet_index + 1))) [
              | inl full ↦
                  simp (e, full)
                    (record {
                      size = omega (arith, h.size, process_mouse_packet-size taken);
                      index = omega (arith, h.size, process_mouse_packet-size taken);
                      position = process_mouse_packet-IsOnScreen taken keeps;
                    })
              | inr more ↦
                  simp (e, more)
                    (record { size = h.size; index = ground arith; position = h.position })
            ]
      ]

  -- An interrupt of the mouse, whatever byte it reads, keeps the place of the next byte within the
  -- packet, and so within the buffer, and the coordinates of the pointer from 0 to 2^31 - 1, if the callback
  -- does.
  pub ps2_mouse_interrupt-IsMouse :
      (inb : ℕ → W → ℕ × W) (s : Mouse W)
      → KeepsOnScreen s
      → IsMouse s
      → IsMouse (ps2_mouse_interrupt inb s)
  unfolding ps2_mouse_interrupt KeepsOnScreen
  ps2_mouse_interrupt-IsMouse inb s keeps h =
      let (byte, w) = inb 0x60 s.ports in
      receive-IsMouse byte (record s { ports = w }) keeps
        (record { size = h.size; index = h.index; position = h.position })

  -- The byte in its place.
  put_byte : ℕ → Mouse W → Mouse W
  put_byte byte s = record s {
    mouse_packet_buffer = λ i. if i == s.mouse_packet_index then byte else s.mouse_packet_buffer i;
    mouse_packet_index = s.mouse_packet_index + 1;
  }

  receive-first :
      (byte : ℕ) (s : Mouse W)
      → has_bit byte mouse_packet_always_1 ≡ true
      → s.mouse_packet_index + 1 < s.mouse_packet_size
      → receive byte s ≡ put_byte byte s
  unfolding receive put_byte
  receive-first byte s bit more =
      let kept : ((s.mouse_packet_index == 0) && not (has_bit byte mouse_packet_always_1)) ≡ false =
        ground arith in
      let e : leb s.mouse_packet_size (s.mouse_packet_index + 1) ≡ false = ground arith in
      simp (kept, e) refl

  receive-next :
      (byte : ℕ) (s : Mouse W)
      → 0 < s.mouse_packet_index
      → s.mouse_packet_index + 1 < s.mouse_packet_size
      → receive byte s ≡ put_byte byte s
  unfolding receive put_byte
  receive-next byte s inside more =
      let kept : (s.mouse_packet_index == 0) ≡ false = ground arith in
      let e : leb s.mouse_packet_size (s.mouse_packet_index + 1) ≡ false = ground arith in
      simp (kept, e) refl

  -- The last byte of a packet.
  receive-last :
      (byte : ℕ) (s : Mouse W)
      → 0 < s.mouse_packet_index
      → s.mouse_packet_index + 1 ≡ s.mouse_packet_size
      → s.mouse_callback ≡ none
      → ((receive byte s).mouse_packet_index ≡ 0)
        × ((receive byte s).mouse_state
            ≡ moved
                (packet_of
                  (put_byte byte s).mouse_packet_buffer
                  (ltb 3 s.mouse_packet_size && s.mouse_state.has_scroll_wheel))
                s.mouse_state)
  unfolding receive put_byte process_mouse_packet
  receive-last byte s inside last silent =
      let kept : (s.mouse_packet_index == 0) ≡ false = ground arith in
      let e : leb s.mouse_packet_size (s.mouse_packet_index + 1) ≡ true = ground arith in
      let filled = put_byte byte s in
      let packet =
        packet_of filled.mouse_packet_buffer
          (ltb 3 s.mouse_packet_size && s.mouse_state.has_scroll_wheel) in
      let process =
        ap
          (λ f.
            (call_back f (record filled { mouse_state = moved packet s.mouse_state })).mouse_state)
          silent in
      simp (kept, e) (refl, process)

  -- Between packets, a first byte with its fixed bit set and as many more as a packet has move the
  -- pointer by the packet that the bytes stand for, where there is no callback, and the driver is between
  -- packets again.
  pub received-moved :
      (b : ℕ) (bytes : List ℕ) (s : Mouse W)
      → has_bit b mouse_packet_always_1 ≡ true
      → s.mouse_packet_index ≡ 0
      → (3 ≤ s.mouse_packet_size) × (s.mouse_packet_size ≤ 4)
      → length (b ∷ bytes) ≡ s.mouse_packet_size
      → s.mouse_callback ≡ none
      → ((received (b ∷ bytes) s).mouse_packet_index ≡ 0)
        × ((received (b ∷ bytes) s).mouse_state
            ≡ moved
                (packet_of
                  (byte_at (b ∷ bytes))
                  (ltb 3 s.mouse_packet_size && s.mouse_state.has_scroll_wheel))
                s.mouse_state)
  unfolding received byte_at packet_of put_byte
  received-moved b [] s bit start size all silent = absurd (omega arith)
  received-moved b (b1 ∷ []) s bit start size all silent = absurd (omega arith)
  received-moved b (b1 ∷ b2 ∷ []) s bit start size all silent =
      let s1 = put_byte b s in
      let s2 = put_byte b1 s1 in
      let first : receive b s ≡ s1 = receive-first b s bit (omega arith) in
      let second : receive b1 s1 ≡ s2 = receive-next b1 s1 (omega arith) (omega arith) in
      let final = receive-last b2 s2 (omega arith) (omega arith) silent in
      let short : ltb 3 s.mouse_packet_size ≡ false = ground arith in
      let same =
        packet_of_same (put_byte b2 s2).mouse_packet_buffer (byte_at (b ∷ b1 ∷ b2 ∷ []))
          (ltb 3 s.mouse_packet_size && s.mouse_state.has_scroll_wheel) (ground arith)
          (ground arith) (ground arith) (λ wheel. absurd (cc)) in
      let run : received (b ∷ b1 ∷ b2 ∷ []) s ≡ receive b2 s2 =
        ap (λ m. receive b2 (receive b1 m)) first ∙ ap (receive b2) second in
      (
        ap (λ m. m.mouse_packet_index) run ∙ final.0,
        ap (λ m. m.mouse_state) run ∙ final.1 ∙ ap (λ p. moved p s.mouse_state) same,
      )
  received-moved b (b1 ∷ b2 ∷ b3 ∷ []) s bit start size all silent =
      let s1 = put_byte b s in
      let s2 = put_byte b1 s1 in
      let s3 = put_byte b2 s2 in
      let first : receive b s ≡ s1 = receive-first b s bit (omega arith) in
      let second : receive b1 s1 ≡ s2 = receive-next b1 s1 (omega arith) (omega arith) in
      let third : receive b2 s2 ≡ s3 = receive-next b2 s2 (omega arith) (omega arith) in
      let final = receive-last b3 s3 (omega arith) (omega arith) silent in
      let same =
        packet_of_same (put_byte b3 s3).mouse_packet_buffer (byte_at (b ∷ b1 ∷ b2 ∷ b3 ∷ []))
          (ltb 3 s.mouse_packet_size && s.mouse_state.has_scroll_wheel) (ground arith)
          (ground arith) (ground arith) (λ wheel. ground arith) in
      let run : received (b ∷ b1 ∷ b2 ∷ b3 ∷ []) s ≡ receive b3 s3 =
        ap (λ m. receive b3 (receive b2 (receive b1 m))) first
        ∙ ap (λ m. receive b3 (receive b2 m)) second
        ∙ ap (receive b3) third in
      (
        ap (λ m. m.mouse_packet_index) run ∙ final.0,
        ap (λ m. m.mouse_state) run ∙ final.1 ∙ ap (λ p. moved p s.mouse_state) same,
      )
  received-moved b (b1 ∷ b2 ∷ b3 ∷ b4 ∷ bytes) s bit start size all silent = absurd (omega arith)
