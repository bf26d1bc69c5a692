-- ===== src/Dhrystone.antt =====
-- The types and the global variables of dhrystone/src/dhry.h and dhry_1.c. An int is its 32-bit
-- pattern.
pub mod Procs
pub mod Runs
pub mod Arrays
pub mod Final
pub mod Port
pub mod Format
pub mod Score
use gandiva.Base.{
  ℕ, ◌==◌, if◌then◌else◌, Option, none, some, List, get_elem?, set, Run, ok, fault, or_fault, ◌>>=◌,
  store, load,
}

pub data Enumeration : Type 0 where
  ident_1 ident_2 ident_3 ident_4 ident_5 : Enumeration

-- A Rec_Pointer: NULL, or one of the two records that there are.
pub data RecPointer : Type 0 where
  null glob_1 glob_2 : RecPointer

-- A Record with the part var_1 of its variant, the only one that the program uses.
pub record Rec : Type 0 where
  pub ptr_comp : RecPointer
  pub discr : Enumeration
  pub enum_comp : Enumeration
  pub int_comp : ℕ
  pub str_comp : List ℕ

pub record Globals : Type 0 where
  pub rec_glob_1 : Rec
  pub rec_glob_2 : Rec
  pub ptr_glob : RecPointer
  pub bool_glob : ℕ
  pub ch_1_glob : ℕ
  pub ch_2_glob : ℕ
  pub int_glob : ℕ
  pub arr_1_glob : List ℕ
  pub arr_2_glob : List (List ℕ)

-- *p and *p = r
unfoldable pub deref : RecPointer → Globals → Run Rec
deref null g = fault
deref glob_1 g = ok g.rec_glob_1
deref glob_2 g = ok g.rec_glob_2

unfoldable pub assign : RecPointer → Rec → Globals → Run Globals
assign null r g = fault
assign glob_1 r g = ok (record g { rec_glob_1 = r })
assign glob_2 r g = ok (record g { rec_glob_2 = r })

-- A field of *p is changed.
unfoldable pub update : RecPointer → (Rec → Rec) → Globals → Run Globals
update p f g = deref p g >>= λ r. assign p (f r) g

-- Arr_2_glob[i][j] and Arr_2_glob[i][j] = v
unfoldable pub load_cell : List (List ℕ) → ℕ → ℕ → Run ℕ
load_cell m i j = or_fault (get_elem? m i) >>= λ row. load row j

unfoldable pub store_cell : List (List ℕ) → ℕ → ℕ → ℕ → Run (List (List ℕ))
store_cell m i j v = or_fault (get_elem? m i) >>= λ row. store row j v >>= λ row'. ok (set m i row')
