-- ===== src/Mouse/Packet/Decode.antt =====
-- The movements that kernel/src/arch/x86/mouse.c reads from a packet, against those that the mouse
-- sends: nine bits of two's complement for x and y, of which the sign is in the first byte, and four bits
-- for the wheel.
use freecore.Prelude.{
  ℕ, ◌%◌, ◌<◌, ◌≡◌, ◌↔◌, arith, Bool, true, false, leb, if◌then◌else◌, ◌⊎◌, ℤ, pos, sub_ℕ, int8,
}
use freecore.Mouse.Packet.{z_movement_of}

-- The number of nine bits of two's complement with a sign bit and the byte below it.
pub nine_bits : Bool → ℕ → ℤ
nine_bits sign byte = if sign then sub_ℕ byte 256 else pos byte

-- The number of four bits of two's complement in the lower half of a byte.
four_bits : ℕ → ℤ
four_bits byte = if leb 8 (byte % 16) then sub_ℕ (byte % 16) 16 else pos (byte % 16)

-- The movement that the driver takes from the second or the third byte alone is the one that the mouse
-- sent if and only if the sign bit, which it does not look at, is the highest bit of the byte: a
-- movement from -128 to 127.
pub int8-nine_bits :
    (sign : Bool) (byte : ℕ)
    → byte < 256
    → (int8 byte ≡ nine_bits sign byte) ↔ (sign ≡ leb 128 byte)
unfolding nine_bits
int8-nine_bits true byte small = ground arith
int8-nine_bits false byte small = ground arith

-- The movement of the wheel is read as the mouse sent it if and only if it is not negative or it is -4.
z_movement_of-four_bits :
    (byte : ℕ) → (z_movement_of byte ≡ four_bits byte) ↔ ((byte % 16 < 8) ⊎ (byte % 16 ≡ 12))
unfolding four_bits
z_movement_of-four_bits byte = ground arith
