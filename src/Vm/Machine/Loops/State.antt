-- ===== src/Vm/Machine/Loops/State.antt =====
-- source/vm/vm.c: the stack of a FOR loop, and the accesses that the loop is made of.
use can_do.Base.{ℕ, zero, suc, ◌+◌, ◌-◌, ◌≤◌, ◌<◌, ◌^◌, leb, false, ◌≡◌, ap, ◌∙◌, arith, lt→ltb}
use can_do.Core.Value.{CandoValue, number}
use can_do.Vm.Machine.{CandoVm}
use can_do.Vm.Machine.Act.{Run, Host, ok, pop, pop_n}
use can_do.Vm.Machine.Loops.{below_top, is_outside, pop_to}

-- IEEE 754: a double holds the integers up to 2 ^ 53 exactly. `of n` are the bits of the double `n`.
pub record IsExact (h : Host) (of : ℕ → ℕ) : Type 0 where
  pub geq : (a b : ℕ) → a ≤ 2 ^ 53 → b ≤ 2 ^ 53 → h.f64_geq (of a) (of b) ≡ leb b a
  pub inc : (a : ℕ) → a < 2 ^ 53 → h.f64_inc (of a) ≡ of (a + 1)
  pub trunc : (a : ℕ) → a ≤ 2 ^ 53 → h.f64_trunc (of a) ≡ a

-- The stack of a loop over `count` values from `base` on, of which `index` have had their turn.
pub record IsIterating (of : ℕ → ℕ) (base count index : ℕ) (stack : ℕ → CandoValue) (top : ℕ)
    : Type 0 where
  pub depth : top ≡ base + count + 2
  pub room : top < 2048
  pub counted : stack (base + count) ≡ number (of count)
  pub indexed : stack (base + count + 1) ≡ number (of index)
  pub within : index ≤ count

pub set_top :
    (vm : CandoVm) (a b : ℕ)
    → a ≡ b
    → ◌≡◌ {A = Run (Unit {0})}
        (ok tt (record vm { stack_top = a }))
        (ok tt (record vm { stack_top = b }))
set_top vm a b e = ap (λ (t : ℕ). ok tt (record vm { stack_top = t })) e

pub pop_n_down :
    (n : ℕ) (vm : CandoVm)
    → n ≤ vm.stack_top
    → pop_n n vm ≡ ok tt (record vm { stack_top = vm.stack_top - n })
unfolding pop_n pop
pop_n_down zero vm l = set_top vm vm.stack_top (vm.stack_top - 0) (omega arith)
pop_n_down (suc n) vm l = rw (lt→ltb 0 vm.stack_top (omega arith)) (
    pop_n_down n (record vm { stack_top = vm.stack_top - 1 }) (omega arith)
    ∙ set_top vm (vm.stack_top - 1 - n) (vm.stack_top - suc n) (omega arith))

pub below_top-number :
    (vm : CandoVm) (dist at bits : ℕ)
    → vm.stack_top ≡ at + 1 + dist
    → vm.stack at ≡ number bits
    → below_top dist vm ≡ ok (number bits) vm
unfolding below_top
below_top-number vm dist at bits e v =
    let q : vm.stack_top - 1 - dist ≡ at = omega arith in
    rw (lt→ltb dist vm.stack_top (omega arith), q, v)

pub pop_to_down :
    (save : ℕ) (vm : CandoVm)
    → save ≤ vm.stack_top
    → pop_to save vm ≡ ok tt (record vm { stack_top = save })
unfolding pop_to
pop_to_down save vm l =
    pop_n_down (vm.stack_top - save) vm (omega arith)
    ∙ set_top vm (vm.stack_top - (vm.stack_top - save)) save (omega arith)

pub is_outside_inside :
    (depth loop_depth : ℕ) → depth < loop_depth → is_outside depth loop_depth ≡ false
unfolding is_outside
is_outside_inside depth loop_depth l = ground arith
