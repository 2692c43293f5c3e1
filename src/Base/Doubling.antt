-- ===== src/Base/Doubling.antt =====
-- `while (cap < need) cap *= 2;` on a `w`-bit word: how every growing buffer of the program finds
-- its new capacity. The product wraps, so a loop need not end: `none` is a loop that is still
-- running when the fuel is spent.
use can_do.Base.Tests.{ltb, lt→ltb, if◌then◌else◌}
use Prim.Native.Nat.{ℕ, zero, suc, ◌*◌, ◌%◌, ◌^◌, ◌≤◌, ◌<◌}
use mathlib.Core.Path.{◌≡◌, refl, ap, ◌∙◌}
use mathlib.Core.Option.{Option, none, some}
use mathlib.Core.Logic.{◌⊎◌, inl}
use native.Mathlib.Decide.{dec_lt}
use native.Mathlib.Nat.{pow-suc, mod-eq_of_lt}
use native.Mathlib.Omega.{arith}

unfoldable pub double_until : ℕ → ℕ → ℕ → ℕ → Option ℕ
double_until w zero c need = if ltb c need then none else some c
double_until w (suc fuel) c need =
    let rest = double_until w fuel (c * 2 % 2 ^ w) need in if ltb c need then rest else some c

-- A capacity that the loop may return: large enough, no smaller than before, and less than twice
-- what was asked for if the loop made a step.
pub record IsGrown (c need n : ℕ) : Type 0 where
  pub enough : need ≤ n
  pub no_less : c ≤ n
  pub tight : (n ≡ c) ⊎ (n < 2 * need)

double_until_step :
    (w fuel c need : ℕ)
    → c < need
    → c * 2 < 2 ^ w
    → double_until w (suc fuel) c need ≡ double_until w fuel (c * 2) need
unfolding double_until
double_until_step w fuel c need more fits = rw (lt→ltb c need more, mod-eq_of_lt fits)

-- With room for one more doubling in the word the loop ends.
pub double_until_total :
    (w fuel c need : ℕ)
    → 0 < c
    → need ≤ c * 2 ^ fuel
    → 2 * need ≤ 2 ^ w
    → (n : ℕ) × (double_until w fuel c need ≡ some n) × IsGrown c need n
unfolding double_until
double_until_total w zero c need pos reach fits =
    let e : need ≤ c = omega arith in
    (c, ground arith, record { enough = e; no_less = omega arith; tight = inl refl })
double_until_total w (suc fuel) c need pos reach fits = elim (dec_lt c need) [
  | no done ↦
      (c, ground arith, record { enough = omega arith; no_less = omega arith; tight = inl refl })
  | yes more ↦
      let p = ap (λ (t : ℕ). c * t) (pow-suc 2 fuel) in
      let (n, run, grown) =
        double_until_total w fuel (c * 2) need (omega arith) (omega (arith, p)) fits in
      (
        n,
        double_until_step w fuel c need more (omega arith) ∙ run,
        record {
          enough = grown.enough;
          no_less = omega (arith, grown.no_less);
          tight = ground (arith, grown.tight);
        },
      )
]
