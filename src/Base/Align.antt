-- ===== src/Base/Align.antt =====
-- Rounding up to a power of two by masking, `(n + a - 1) & ~(a - 1)`, on w-bit integers.
use Prim.Native.Nat.{ℕ, zero, suc, ◌+◌, ◌-◌, ◌*◌, ◌/◌, ◌%◌, ◌^◌, ◌≤◌, ◌<◌, min, bit_and, digits}
use Prim.Native.Nat.{bit_and-bitwise}
use mathlib.Core.Path.{◌≡◌, ◌∙◌, ap}
use native.Mathlib.Nat.{
  div-add-mod, mod-lt, pow-succ', mod-eq_of_lt, add-mul-mod_self_left, mul-mod_right,
}
use native.Mathlib.Omega.{arith}

-- `m & ~(a - 1)` on w bits
unfoldable pub mask_down : ℕ → ℕ → ℕ → ℕ
mask_down w m a = bit_and m (2 ^ w - a)

-- `(n + a - 1) & ~(a - 1)` on w bits
unfoldable pub align_up : ℕ → ℕ → ℕ → ℕ
unfolding mask_down
align_up w n a = mask_down w ((n + a - 1) % 2 ^ w) a

pow-pos : (k : ℕ) → 0 < 2 ^ k
pow-pos zero = omega arith
pow-pos (suc k) = omega (arith, pow-succ' 2 k, pow-pos k)

-- Doubling the modulus adds one low digit to the remainder.
mod_double : (x k : ℕ) → x % 2 ^ suc k ≡ 2 * (x / 2 % 2 ^ k) + x % 2
mod_double x k =
    let r = 2 ^ k in
    let low = 2 * (x / 2 % r) + x % 2 in
    let split : x ≡ low + 2 * r * (x / 2 / r) = omega (arith, div-add-mod (x / 2) r) in
    let small : low < 2 * r = omega (arith, mod-lt (x / 2) (pow-pos k)) in
    rw (pow-succ' 2 k) (
      ap (λ t. t % (2 * r)) split
      ∙ add-mul-mod_self_left low (2 * r) (x / 2 / r)
      ∙ mod-eq_of_lt small)

masked :
    (fuel k w x : ℕ)
    → x ≤ fuel
    → k ≤ w
    → x < 2 ^ w
    → digits (λ b. zero) min fuel x (2 ^ w - 2 ^ k) ≡ x - x % 2 ^ k
masked zero k w zero p q r = omega arith
masked zero k w (suc x) p q r = absurd (omega arith)
masked (suc fuel) k w zero p q r = omega arith
masked (suc fuel) k zero (suc x) p q r = absurd (omega arith)
masked (suc fuel) zero (suc w) (suc x) p q r =
    let halved : (2 ^ suc w - 1) / 2 ≡ 2 ^ w - 1 = omega (arith, pow-succ' 2 w, pow-pos w) in
    rw halved (
      omega (
        arith,
        masked fuel 0 w (suc x / 2) (omega arith) (omega arith) (omega (arith, pow-succ' 2 w)),
        pow-succ' 2 w,
        pow-pos w,
      ))
masked (suc fuel) (suc k) (suc w) (suc x) p q r =
    let halved : (2 ^ suc w - 2 ^ suc k) / 2 ≡ 2 ^ w - 2 ^ k =
      omega (arith, pow-succ' 2 w, pow-succ' 2 k) in
    rw halved (
      omega (
        arith,
        masked fuel k w (suc x / 2) (omega arith) (omega arith) (omega (arith, pow-succ' 2 w)),
        pow-succ' 2 w,
        pow-succ' 2 k,
        mod_double (suc x) k,
      ))

pub mask_down_pow : (w k m : ℕ) → k ≤ w → m < 2 ^ w → mask_down w m (2 ^ k) ≡ m - m % 2 ^ k
unfolding mask_down
mask_down_pow w k m p q = bit_and-bitwise m (2 ^ w - 2 ^ k) ∙ masked m k w m (omega arith) p q

-- The mask rounds up, as long as the sum does not wrap.
pub align_up_pow :
    (w k n : ℕ)
    → k ≤ w
    → n + 2 ^ k - 1 < 2 ^ w
    → align_up w n (2 ^ k) ≡ (n + 2 ^ k - 1) - (n + 2 ^ k - 1) % 2 ^ k
unfolding align_up
align_up_pow w k n p q =
    rw (mod-eq_of_lt q) (unfold mask_down in mask_down_pow w k (n + 2 ^ k - 1) p q)

-- The result is a multiple, also where the sum wraps.
pub align_up_multiple : (w k n : ℕ) → k ≤ w → align_up w n (2 ^ k) % 2 ^ k ≡ 0
unfolding align_up
align_up_multiple w k n p =
    let m = (n + 2 ^ k - 1) % 2 ^ w in
    rw (mask_down_pow w k m p (mod-lt _ (pow-pos w))) (
      ap (λ t. t % 2 ^ k) (omega (arith, div-add-mod m (2 ^ k)))
      ∙ mul-mod_right (2 ^ k) (m / 2 ^ k))
