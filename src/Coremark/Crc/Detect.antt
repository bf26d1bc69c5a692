-- ===== src/Coremark/Crc/Detect.antt =====
-- What the CRC of core_util.c detects.
use gandiva.Base.{
  ℕ, zero, suc, ◌+◌, ◌*◌, ◌/◌, ◌%◌, ◌^◌, ◌<◌, bit_xor, ◌≡◌, ◌≢◌, ◌↔◌, refl, ap, sym, ◌∙◌, arith,
  Bool, true, ◌==◌, ltb, if◌then◌else◌, ==_iff,
}
use gandiva.Base.Bits.{all_pairs, all_pairs_sound, bit_xor-lt, bit_xor_undo}
use gandiva.Base.Bits.{bit_xor_comm}
use gandiva.Coremark.Crc.{crcu16}
use gandiva.Coremark.Crc.Linear.{shift_register, shift_times, crcu16-register}

-- The top digit tells whether the polynomial was added.
unshift : ℕ → ℕ
unshift y = if ltb y 0x8000 then y * 2 else bit_xor y 0xa001 * 2 + 1

unshift_times : ℕ → ℕ → ℕ
unshift_times zero y = y
unshift_times (suc n) y = unshift (unshift_times n y)

abbrev back_ok : ℕ → ℕ → Bool
back_ok a b = unshift (shift_register (a * 256 + b)) == (a * 256 + b)

words_back : all_pairs 256 256 back_ok ≡ true
unfolding all_pairs unshift shift_register
words_back = refl

unshift-shift_register : (x : ℕ) → x < 2 ^ 16 → unshift (shift_register x) ≡ x
unshift-shift_register x h =
    let e : x / 256 * 256 + x % 256 ≡ x = omega arith in
    let table =
      all_pairs_sound 256 256 back_ok (x / 256) (x % 256) words_back (omega arith) (omega arith) in
    rw e at ((==_iff _ _).0 table)

shift_register-lt : (x : ℕ) → x < 2 ^ 16 → shift_register x < 2 ^ 16
unfolding shift_register
shift_register-lt x h = ground (arith, bit_xor-lt 16 (x / 2) 0xa001)

unshift-shift_times : (n x : ℕ) → x < 2 ^ 16 → unshift_times n (shift_times n x) ≡ x
unfolding unshift_times shift_times
unshift-shift_times zero x h = refl
unshift-shift_times (suc n) x h =
    rw (unshift-shift_times n (shift_register x) (shift_register-lt x h))
      (unshift-shift_register x h)

-- For 16-bit words and CRCs: two words lead from two CRCs to one CRC exactly when each CRC with its word added is the same
-- pattern.
pub crcu16-eq_iff :
    (v w c d : ℕ)
    → v < 2 ^ 16
    → w < 2 ^ 16
    → c < 2 ^ 16
    → d < 2 ^ 16
    → (crcu16 v c ≡ crcu16 w d) ↔ (bit_xor c v ≡ bit_xor d w)
crcu16-eq_iff v w c d hv hw hc hd = (back, forth)
  where
    back : crcu16 v c ≡ crcu16 w d → bit_xor c v ≡ bit_xor d w
    back same =
        sym (unshift-shift_times 16 (bit_xor c v) (bit_xor-lt 16 c v hc hv))
        ∙ ap (unshift_times 16) (sym (crcu16-register v c hv hc) ∙ same ∙ crcu16-register w d hw hd)
        ∙ unshift-shift_times 16 (bit_xor d w) (bit_xor-lt 16 d w hd hw)

    forth : bit_xor c v ≡ bit_xor d w → crcu16 v c ≡ crcu16 w d
    forth same =
        crcu16-register v c hv hc ∙ ap (shift_times 16) same ∙ sym (crcu16-register w d hw hd)

-- For 16-bit words and CRCs: by different words one CRC goes to different CRCs, so a change of any number of bits within one
-- word is seen; and by one word different CRCs go to different CRCs, so it is not lost later.
pub crcu16_detects :
    (v w c : ℕ)
    → v < 2 ^ 16
    → w < 2 ^ 16
    → c < 2 ^ 16
    → v ≢ w
    → (crcu16 v c ≢ crcu16 w c) × (crcu16 c v ≢ crcu16 c w)
crcu16_detects v w c hv hw hc ne = (word_change, crc_change)
  where
    cancel : bit_xor v c ≡ bit_xor w c → v ≡ w
    cancel e = sym (bit_xor_undo v c) ∙ ap (λ t. bit_xor t c) e ∙ bit_xor_undo w c

    word_change : crcu16 v c ≢ crcu16 w c
    word_change same =
        let e = (crcu16-eq_iff v w c c hv hw hc hc).0 same in
        ne (cancel (bit_xor_comm v c ∙ e ∙ bit_xor_comm c w))

    crc_change : crcu16 c v ≢ crcu16 c w
    crc_change same = ne (cancel ((crcu16-eq_iff c c v w hc hc hv hw).0 same))
