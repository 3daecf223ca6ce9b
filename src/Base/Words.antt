-- ===== src/Base/Words.antt =====
-- Unsigned integers as C++ adds and subtracts them: `unsigned int` has 32 bits, `size_t` 64.
use Prim.Native.Nat.{ℕ, ◌+◌, ◌-◌, ◌%◌}
use mathlib.Core.Path.{◌≡◌}
use native.Mathlib.Omega.{arith}

abbrev pub unsigned_mod : ℕ
unsigned_mod = 0x1_0000_0000

abbrev pub size_mod : ℕ
size_mod = 0x1_0000_0000_0000_0000

abbrev pub add_unsigned : ℕ → ℕ → ℕ
add_unsigned a b = (a + b) % unsigned_mod

abbrev pub sub_unsigned : ℕ → ℕ → ℕ
sub_unsigned a b = (a + (unsigned_mod - b % unsigned_mod)) % unsigned_mod

abbrev pub add_size : ℕ → ℕ → ℕ
add_size a b = (a + b) % size_mod

abbrev pub sub_size : ℕ → ℕ → ℕ
sub_size a b = (a + (size_mod - b % size_mod)) % size_mod

-- A total that some are still to be added to, after one of them is.
pub added-total :
    (total size rest live : ℕ)
    → (total + (size + rest)) % size_mod ≡ live % size_mod
    → (add_size total size + rest) % size_mod ≡ live % size_mod
added-total total size rest live e = omega arith

-- And after one that is live is taken off.
pub subbed-total :
    (total size rest live : ℕ)
    → (total + rest) % size_mod ≡ (size + live) % size_mod
    → (sub_size total size + rest) % size_mod ≡ live % size_mod
subbed-total total size rest live e = omega arith

-- The total as one of the live, before its addition.
pub entered-total :
    (total size rest live : ℕ)
    → (total + rest) % size_mod ≡ live % size_mod
    → (total + (size + rest)) % size_mod ≡ (size + live) % size_mod
entered-total total size rest live e = omega arith
