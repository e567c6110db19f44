-- ===== src/Prelude/Words.antt =====
-- `usize` of the target i686-pc-windows-msvc (.cargo/config.toml): 32 bits.
use Prim.Native.Nat.{
  ℕ, zero, suc, ◌+◌, ◌-◌, ◌%◌, ◌/◌, ◌^◌, ◌<◌, min, bit_and, bit_and-bitwise, digits,
}
use mathlib.Core.Path.{◌≡◌, refl}
use mathlib.Core.Option.{Option, none, some}
use native.Mathlib.Omega.{arith}
use fc2_systemdetection.Prelude.Tests.{ltb, leb, if◌then◌else◌}

abbrev pub usize_mod : ℕ
usize_mod = 2 ^ 32

-- `usize::checked_add` and `usize::checked_sub`
abbrev pub checked_add : ℕ → ℕ → Option ℕ
checked_add a b = if ltb (a + b) usize_mod then some (a + b) else none

abbrev pub checked_sub : ℕ → ℕ → Option ℕ
checked_sub a b = if leb b a then some (a - b) else none

pub checked_add-eq-some :
    (a b : ℕ) {c : ℕ} → checked_add a b ≡ some c → (c ≡ a + b) × (a + b < usize_mod)
checked_add-eq-some a b h = ground arith

-- What is left of the digits under a mask of no ones.
masked : (n a : ℕ) → digits (λ b. zero) min n a 0 ≡ 0
masked zero a = refl
masked (suc n) zero = refl
masked (suc n) (suc a) = omega (arith, masked n (suc a / 2))

-- Bit 0 of a word.
pub bit_and-one : (a : ℕ) → bit_and a 1 ≡ a % 2
bit_and-one zero = bit_and-bitwise 0 1
bit_and-one (suc a) = omega (arith, bit_and-bitwise (suc a) 1, masked a (suc a / 2))
