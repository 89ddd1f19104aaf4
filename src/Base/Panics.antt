-- ===== src/Base/Panics.antt =====
-- Code that may panic: an index out of bounds, a failed assertion, an `unwrap` of nothing.
use mathlib.Core.Bool.{Bool, true, false}
use mathlib.Core.List.{List}
use mathlib.Core.Option.{Option, none, some}
use Prim.Native.Nat.{ℕ}
use mini_visor_real_device.Base.Lists.{get_elem?}

pub data Exec {ℓ} (A : Type ℓ) : Type ℓ where
  done : A → Exec A
  panic : Exec A

infixl 5 ◌>>=◌ ◌>>◌
abbrev pub ◌>>=◌ {ℓ κ} : {A : Type ℓ} {B : Type κ} → Exec A → (A → Exec B) → Exec B
done a >>= f = f a
panic >>= f = panic

abbrev pub ◌>>◌ {ℓ} : {B : Type ℓ} → Exec (Unit {0}) → Exec B → Exec B
done _ >> k = k
panic >> k = panic

-- `assert!`
abbrev pub assert : Bool → Exec (Unit {0})
assert true = done tt
assert false = panic

-- `Option::unwrap`
abbrev pub unwrap {ℓ} : {A : Type ℓ} → Option A → Exec A
unwrap none = panic
unwrap (some a) = done a

-- `xs[i]`, with the bounds check
abbrev pub index {ℓ} : {A : Type ℓ} → List A → ℕ → Exec A
index xs i = unwrap (get_elem? xs i)
