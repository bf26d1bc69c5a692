-- ===== src/Coremark/Crc.antt =====
-- coremark/src/core_util.c: the 16-bit CRC functions.
pub mod Linear
pub mod Detect
use gandiva.Base.{ℕ, zero, suc, ◌/◌, ◌%◌, ◌^◌, bit_and, bit_or, bit_xor}
use gandiva.Base.{u8, u16, shr, ◌==◌, if◌then◌else◌}

-- One round of the loop of `crcu8`, on the CRC: `bits` holds the bits that are left.
pub crc_round : ℕ → ℕ → ℕ
crc_round bits crc =
    let x16 = u8 (bit_xor (bit_and bits 1) (bit_and (u8 crc) 1)) in
    if x16 == 1 then bit_or (shr (bit_xor crc 0x4002) 1) 0x8000 else bit_and (shr crc 1) 0x7fff

-- The loop: `i` rounds are left, and `bits` is shifted in each.
pub crc_rounds : ℕ → ℕ → ℕ → ℕ
crc_rounds zero bits crc = crc
crc_rounds (suc i) bits crc = crc_rounds i (shr bits 1) (crc_round bits crc)

unfoldable pub crcu8 : ℕ → ℕ → ℕ
unfolding crc_round crc_rounds
crcu8 bits crc = crc_rounds 8 bits crc

unfoldable pub crcu16 : ℕ → ℕ → ℕ
unfolding crcu8
crcu16 newval crc = let crc' = crcu8 (u8 newval) crc in crcu8 (u8 (shr newval 8)) crc'

-- `crc16` takes the pattern of an `ee_s16`.
unfoldable pub crc16 : ℕ → ℕ → ℕ
unfolding crcu16
crc16 newval crc = crcu16 (u16 newval) crc

unfoldable pub crcu32 : ℕ → ℕ → ℕ
unfolding crc16
crcu32 newval crc = let crc' = crc16 (u16 newval) crc in crc16 (u16 (shr newval 16)) crc'
