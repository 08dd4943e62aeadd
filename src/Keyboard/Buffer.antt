-- ===== src/Keyboard/Buffer.antt =====
-- The ring buffer of scancodes of kernel/src/arch/x86/keyboard.c.
pub mod Queue
use freecore.Prelude.{
  ℕ, ◌+◌, ◌-◌, ◌%◌, ◌==◌, ltb, if◌then◌else◌, Option, none, some, List, set, get_or,
}

abbrev pub kb_buffer_size : ℕ
kb_buffer_size = 32

-- `kb_buffer`; the array `data` is `codes` here
pub record KbBuffer : Type 0 where
  pub codes : List ℕ
  pub head : ℕ
  pub tail : ℕ
  pub count : ℕ

pub kb_buffer_add : ℕ → KbBuffer → KbBuffer
kb_buffer_add scancode b =
    if ltb b.count kb_buffer_size
    then record b {
      codes = set b.codes b.head scancode;
      head = (b.head + 1) % kb_buffer_size;
      count = b.count + 1;
    }
    else b

-- `none` is the result -1.
pub kb_buffer_get : KbBuffer → Option ℕ × KbBuffer
kb_buffer_get b = if b.count == 0 then (none, b) else (
  some (get_or b.codes b.tail 0),
  record b { tail = (b.tail + 1) % kb_buffer_size; count = b.count - 1 },
)
