-- ===== src/Coremark/List/Compare.antt =====
-- The comparisons of coremark/src/core_list_join.c that the sort of the list is called with.
pub mod Complex
pub mod Idx
pub mod Regen
use gandiva.Base.{
  ℕ, ◌+◌, ◌-◌, ◌%◌, ◌^◌, shr, sext16, u32, Option, none, some, Run, ok, fault, ◌>>=◌,
}
use gandiva.Coremark.Calc.{Results, calc_func}
use gandiva.Coremark.List.{Heap, field, set_data16}
use gandiva.Coremark.List.Sort.{Compared}

-- The difference of two `ee_s16`, as `ee_s32`.
abbrev pub difference : ℕ → ℕ → ℕ
difference x y = u32 (sext16 x + (2 ^ 32 - sext16 y))

unfoldable pub cmp_complex : ℕ → ℕ → Heap → Option Results → Run Compared
cmp_complex a b h none = fault
cmp_complex a b h (some res) = field h.data16 a >>= λ data_a. calc_func data_a res >>= λ val1.
    set_data16 a val1.pdata h >>= λ h₁. field h₁.data16 b >>= λ data_b.
    calc_func data_b val1.res >>= λ val2. set_data16 b val2.pdata h₁ >>= λ h₂.
    ok (record { value = difference val1.value val2.value; heap = h₂; res = some val2.res })

-- (x & 0xff00) | (0x00ff & (x >> 8))
abbrev pub regen : ℕ → ℕ
regen x = x - x % 2 ^ 8 + shr x 8 % 2 ^ 8

unfoldable pub regen_item : ℕ → Heap → Run Heap
regen_item a h = field h.data16 a >>= λ x. set_data16 a (regen x) h

unfoldable pub idx_difference : ℕ → ℕ → Heap → Option Results → Run Compared
idx_difference a b h res = field h.idx a >>= λ x.
    field h.idx b >>= λ y. ok (record { value = difference x y; heap = h; res = res })

unfoldable pub cmp_idx : ℕ → ℕ → Heap → Option Results → Run Compared
cmp_idx a b h none = regen_item a h >>= λ h₁. regen_item b h₁ >>= λ h₂. idx_difference a b h₂ none
cmp_idx a b h (some res) = idx_difference a b h (some res)
