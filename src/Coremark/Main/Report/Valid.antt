-- ===== src/Coremark/Main/Report/Valid.antt =====
-- When main reports no error.
use mathlib.Core.Path.{subst}
use gandiva.Base.{
  ℕ, zero, suc, ◌+◌, ◌≤◌, ◌<◌, ◌≡◌, ◌⊎◌, ◌↔◌, refl, arith, Bool, false, Option, none, some, get_or,
  u16, ok,
}
use gandiva.Coremark.Main.Setup.{Seeds, executes}
use gandiva.Coremark.Main.Report.{
  seedcrc, known_id, Crcs, list_known_crc, matrix_known_crc, state_known_crc, check_crc,
  count_errors, errors_of, Sizes, check_data_types, total_errors,
}

-- An algorithm that is executed has the CRC that is known for it.
abbrev pub Agrees : ℕ → ℕ → ℕ → ℕ → Type 0
Agrees execs i crc known = (executes execs i ≡ false) ⊎ (crc ≡ known)

abbrev pub AllAgree : ℕ → Crcs → ℕ → Type 0
AllAgree execs c id =
    Agrees execs 0 c.crclist (get_or list_known_crc id 0)
    × Agrees execs 1 c.crcmatrix (get_or matrix_known_crc id 0)
    × Agrees execs 2 c.crcstate (get_or state_known_crc id 0)

-- The data types have the sizes that the benchmark is written for.
abbrev pub Fitting : Sizes → Type 0
Fitting s =
    (s.ee_u8 ≡ 1)
    × (s.ee_u16 ≡ 2)
    × (s.ee_s16 ≡ 2)
    × (s.ee_s32 ≡ 4)
    × (s.ee_u32 ≡ 4)
    × (s.ee_ptr_int ≡ s.int_pointer)

pub check_data_types_iff : (s : Sizes) → (check_data_types s ≡ 0) ↔ Fitting s
unfolding check_data_types
check_data_types_iff s = (λ e. ground (arith, e), λ f. ground (arith, f))

check_crc-le : (b : Bool) (crc known err : ℕ) → check_crc b crc known err ≤ err + 1
unfolding check_crc
check_crc-le b crc known err = ground arith

check_crc_iff :
    (execs i crc known err : ℕ)
    → (check_crc (executes execs i) crc known err ≡ 0) ↔ ((err ≡ 0) × Agrees execs i crc known)
unfolding check_crc
check_crc_iff execs i crc known err = (λ e. ground (arith, e), λ f. ground (arith, f))

pub known_id_lt : (crc id : ℕ) → known_id crc ≡ some id → id < 5
unfolding known_id
known_id_lt crc id e = ground (arith, e)

counts :
    (execs : ℕ) (c : Crcs) (list matrix state : ℕ)
    → (check_crc (executes execs 2) c.crcstate state (
          check_crc
            (executes execs 1)
            c.crcmatrix
            matrix
            (check_crc (executes execs 0) c.crclist list 0))
        ≤ 3)
      × ((check_crc (executes execs 2) c.crcstate state (
              check_crc
                (executes execs 1)
                c.crcmatrix
                matrix
                (check_crc (executes execs 0) c.crclist list 0))
            ≡ 0)
          ↔ (Agrees execs 0 c.crclist list
              × Agrees execs 1 c.crcmatrix matrix
              × Agrees execs 2 c.crcstate state))
counts execs c list matrix state =
    let first = check_crc (executes execs 0) c.crclist list 0 in
    let second = check_crc (executes execs 1) c.crcmatrix matrix first in
    let i₁ = check_crc_iff execs 0 c.crclist list 0 in
    let i₂ = check_crc_iff execs 1 c.crcmatrix matrix first in
    let i₃ = check_crc_iff execs 2 c.crcstate state second in
    (
      omega (
        arith,
        check_crc-le (executes execs 2) c.crcstate state second,
        check_crc-le (executes execs 1) c.crcmatrix matrix first,
        check_crc-le (executes execs 0) c.crclist list 0,
      ),
      (
        λ e. let (e₂, a₃) = i₃.0 e in let (e₁, a₂) = i₂.0 e₂ in ((i₁.0 e₁).1, a₂, a₃),
        λ a. i₃.1 (i₂.1 (i₁.1 (refl, a.0), a.1), a.2),
      ),
    )

count_errors_lem :
    (execs : ℕ) (c : Crcs) (id : ℕ)
    → id < 5
    → (err : ℕ) × (count_errors execs c id ≡ ok err) × (err ≤ 3) × ((err ≡ 0) ↔ AllAgree execs c id)
unfolding count_errors
count_errors_lem execs c zero h =
    let (few, iff) = counts execs c 0xd4b0 0xbe52 0x5e47 in (_, refl, few, iff)
count_errors_lem execs c (suc zero) h =
    let (few, iff) = counts execs c 0x3340 0x1199 0x39bf in (_, refl, few, iff)
count_errors_lem execs c (suc (suc zero)) h =
    let (few, iff) = counts execs c 0x6a79 0x5608 0xe5a4 in (_, refl, few, iff)
count_errors_lem execs c (suc (suc (suc zero))) h =
    let (few, iff) = counts execs c 0xe714 0x1fd7 0x8e3a in (_, refl, few, iff)
count_errors_lem execs c (suc (suc (suc (suc zero)))) h =
    let (few, iff) = counts execs c 0xe3c1 0x0747 0x8d84 in (_, refl, few, iff)
count_errors_lem execs c (suc (suc (suc (suc (suc id))))) h = absurd (omega arith)

pub errors_of_lem :
    (o : Option ℕ) (execs : ℕ) (c : Crcs) (sizes : Sizes)
    → ((id : ℕ) → o ≡ some id → id < 5)
    → check_data_types sizes ≡ 0
    → (n : ℕ) × (errors_of o execs c sizes ≡ ok n)
      × ((n ≡ 0) ↔ ((id : ℕ) × (o ≡ some id) × AllAgree execs c id))
      × ((o ≡ none) → n ≡ 0xffff)
      × ((id : ℕ) → o ≡ some id → n ≤ 3)
unfolding errors_of
errors_of_lem none execs c sizes below fit = (
  u16 (0xffff + check_data_types sizes),
  refl,
  (λ e. absurd (omega (arith, fit)), λ z. cc),
  λ e. omega (arith, fit),
  λ id e. cc,
)
errors_of_lem (some id) execs c sizes below fit =
    let (err, e, few, iff) = count_errors_lem execs c id (below id refl) in
    (
      u16 (err + check_data_types sizes),
      rw e refl,
      (
        λ z. (id, refl, iff.0 (omega (arith, fit))),
        λ z.
            let back : z.0 ≡ id = cc in
            let none_found = iff.1 (subst (λ k. AllAgree execs c k) back z.2) in
            omega (arith, fit, none_found),
      ),
      λ e. cc,
      λ k e. omega (arith, fit, few),
    )

-- For data types of the right sizes: main's count of errors is 0 exactly when the seeds and the size
-- are those of a known run, and every algorithm that is executed has the CRC known for that run.
-- For other seeds the count is -1.
pub total_errors_iff :
    (s : Seeds) (size : ℕ) (c : Crcs) (sizes : Sizes)
    → Fitting sizes
    → (n : ℕ) × (total_errors s size c sizes ≡ ok n)
      × ((n ≡ 0) ↔ ((id : ℕ) × (known_id (seedcrc s size) ≡ some id) × AllAgree s.execs c id))
      × ((known_id (seedcrc s size) ≡ none) → n ≡ 0xffff)
unfolding total_errors
total_errors_iff s size c sizes fit =
    let (n, e, iff, unknown, few) =
      errors_of_lem (known_id (seedcrc s size)) s.execs c sizes (known_id_lt (seedcrc s size))
        ((check_data_types_iff sizes).1 fit) in
    (n, e, iff, unknown)
