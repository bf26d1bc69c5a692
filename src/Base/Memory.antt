-- ===== src/Base/Memory.antt =====
-- The outcome of code that walks memory. `fault` is an access outside the block that it was
-- given, and `out_of_fuel` a loop that has not ended within its bound.
use Prim.Native.Nat.{ℕ, ◌<◌}
use mathlib.Core.Path.{◌≡◌, ap, ◌∙◌}
use mathlib.Core.Option.{Option, none, some}
use mathlib.Core.List.{List, ◌∷◌, ◌++◌}
use native.Mathlib.Omega.{arith}
use gandiva.Base.Tests.{ltb, lt→ltb, if◌then◌else◌}
use gandiva.Base.Lists.{
  length, length-append, get_elem?-middle, set-middle, get_elem?, set, get_or, get_elem?-eq-get_or,
}

pub data Run {ℓ} (A : Type ℓ) : Type ℓ where
  ok : A → Run A
  fault out_of_fuel : Run A

infixl 5 ◌>>=◌
abbrev pub ◌>>=◌ {ℓ κ} : {A : Type ℓ} {B : Type κ} → Run A → (A → Run B) → Run B
ok a >>= f = f a
fault >>= f = fault
out_of_fuel >>= f = out_of_fuel

abbrev pub or_fault {ℓ} : {A : Type ℓ} → Option A → Run A
or_fault (some a) = ok a
or_fault none = fault

-- `m[i]` and `m[i] = v` within the block.
unfoldable pub load : List ℕ → ℕ → Run ℕ
load m i = or_fault (get_elem? m i)

unfoldable pub store : List ℕ → ℕ → ℕ → Run (List ℕ)
store m i v = if ltb i (length m) then ok (set m i v) else fault

pub load-ok : (m : List ℕ) (i : ℕ) → i < length m → load m i ≡ ok (get_or m i 0)
unfolding load
load-ok m i h = rw (get_elem?-eq-get_or m i 0 h)

pub store-ok : (m : List ℕ) (i v : ℕ) → i < length m → store m i v ≡ ok (set m i v)
unfolding store
store-ok m i v h = rw (lt→ltb i (length m) h)

-- An access right behind the part `xs` of the block.
pub load-middle : (xs : List ℕ) (x : ℕ) (ys : List ℕ) → load (xs ++ x ∷ ys) (length xs) ≡ ok x
unfolding load
load-middle xs x ys = rw (get_elem?-middle xs x ys)

pub store-middle :
    (xs : List ℕ) (x v : ℕ) (ys : List ℕ) → store (xs ++ x ∷ ys) (length xs) v ≡ ok (xs ++ v ∷ ys)
store-middle xs x v ys =
    store-ok (xs ++ x ∷ ys) (length xs) v (omega (arith, length-append {0} xs (x ∷ ys)))
    ∙ ap ok (set-middle xs x v ys)
