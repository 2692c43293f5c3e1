-- ===== src/Base/Bits.antt =====
-- `x & (2^k - 1)` and `x & 1` as arithmetic, at every width. The native operations have no laws at
-- variables, so the law of the lowest digit comes first, from the digits that they stand for.
use Prim.Native.Nat.{
  ℕ, zero, suc, ◌+◌, ◌-◌, ◌*◌, ◌/◌, ◌%◌, ◌^◌, ◌≤◌, ◌<◌, min, bit_and, digits, bit_and-bitwise,
}
use mathlib.Core.Path.{◌≡◌, refl, ap, ◌∙◌}
use mathlib.Core.WellFounded
use native.Mathlib.Nat.{pow-suc, one-le-pow}
use native.Mathlib.Decide.{dec_lt}
use native.Mathlib.Omega.{arith}
use can_do.Base.Order.{lt_wf}

-- The digit recursion behind `bit_and`, on fuel `n`.
abbrev and_from : ℕ → ℕ → ℕ → ℕ
and_from n a b = digits (λ b. zero) min n a b

-- Any two amounts of fuel that reach `a` give the same digits.
and_from_enough : (m n a b : ℕ) → a ≤ m → a ≤ n → and_from m a b ≡ and_from n a b
and_from_enough zero zero a b p q = refl
and_from_enough (suc m) zero zero b p q = refl
and_from_enough (suc m) zero (suc a) b p q = absurd (omega arith)
and_from_enough zero (suc n) zero b p q = refl
and_from_enough zero (suc n) (suc a) b p q = absurd (omega arith)
and_from_enough (suc m) (suc n) zero b p q = refl
and_from_enough (suc m) (suc n) (suc a) b p q =
    omega (arith, and_from_enough m n (suc a / 2) (b / 2) (omega arith) (omega arith))

-- The lowest digit of a conjunction is the lesser of the two digits.
bit_and-halves : (a b : ℕ) → bit_and a b ≡ 2 * bit_and (a / 2) (b / 2) + min (a % 2) (b % 2)
bit_and-halves zero b = omega (arith, bit_and-bitwise 0 b, bit_and-bitwise 0 (b / 2))
bit_and-halves (suc a) b =
    let whole = bit_and-bitwise (suc a) b in
    let half = bit_and-bitwise (suc a / 2) (b / 2) in
    let same = and_from_enough a (suc a / 2) (suc a / 2) (b / 2) (omega arith) (omega arith) in
    omega (arith, whole, half, same)

-- Nothing survives an empty mask.
bit_and-none : (a : ℕ) → bit_and a 0 ≡ 0
bit_and-none a = WellFounded.induction lt_wf {C = λ n. bit_and n 0 ≡ 0} a λ n ih.
    elim (dec_lt 0 n) [
      | yes p ↦ omega (arith, bit_and-halves n 0, ih (n / 2) (omega arith))
      | no p ↦ let e : n ≡ 0 = omega arith in rw e
    ]

-- Keeping the digits of `r` below a mask of `k` ones.
mask_keeps : (k q r : ℕ) → r < 2 ^ k → bit_and (2 ^ k * q + r) (2 ^ k - 1) ≡ r
mask_keeps zero q r h = rw (bit_and-none (2 ^ 0 * q + r)) (omega arith)
mask_keeps (suc k) q r h =
    let p = pow-suc 2 k in
    let pq = ap (λ (t : ℕ). t * q) (pow-suc 2 k) in
    let pos = one-le-pow k 2 (omega arith) in
    let n = 2 ^ suc k * q + r in
    let m = 2 ^ suc k - 1 in
    let en : n / 2 ≡ 2 ^ k * q + r / 2 = omega (arith, p, pq) in
    let em : m / 2 ≡ 2 ^ k - 1 = omega (arith, p, pos) in
    let ih = mask_keeps k q (r / 2) (omega (arith, p)) in
    let halves : bit_and (n / 2) (m / 2) ≡ r / 2 = rw (en, em) ih in
    omega (arith, bit_and-halves n m, halves, p, pq, pos)

-- `a & (2^k - 1)` is the remainder by `2^k`.
pub bit_and-low_mask : (k a : ℕ) → bit_and a (2 ^ k - 1) ≡ a % 2 ^ k
bit_and-low_mask k a =
    let pos = one-le-pow k 2 (omega arith) in
    let whole : a ≡ 2 ^ k * (a / 2 ^ k) + a % 2 ^ k = grind (arith, pos) in
    let low : a % 2 ^ k < 2 ^ k = omega (arith, pos) in
    ap (λ (t : ℕ). bit_and t (2 ^ k - 1)) whole ∙ mask_keeps k (a / 2 ^ k) (a % 2 ^ k) low
