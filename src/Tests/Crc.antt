-- ===== src/Tests/Crc.antt =====
-- The CRC functions at concrete words.
use gandiva.Base.{◌≡◌, ◌↔◌, bit_xor, arith}
use gandiva.Coremark.Crc.{crcu16}
use gandiva.Coremark.Crc.Linear.{shift_times, crcu16-register}
use gandiva.Coremark.Crc.Detect.{crcu16-eq_iff}

crcu16-register_example : crcu16 0x3415 0xffff ≡ shift_times 16 (bit_xor 0xffff 0x3415)
crcu16-register_example = crcu16-register 0x3415 0xffff (omega arith) (omega arith)

crcu16-eq_iff_example : (crcu16 3 5 ≡ crcu16 6 0) ↔ (bit_xor 5 3 ≡ bit_xor 0 6)
crcu16-eq_iff_example =
    crcu16-eq_iff 3 6 5 0 (omega arith) (omega arith) (omega arith) (omega arith)
