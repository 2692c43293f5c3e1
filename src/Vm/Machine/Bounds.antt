-- ===== src/Vm/Machine/Bounds.antt =====
-- source/vm/vm.c: the limits of vm.h, kept by every instruction.
pub mod Basics
pub mod Arith
pub mod Control
pub mod Unwinding
pub mod Returns
pub mod Functions
pub mod Steps
use can_do.Base.{
  ℕ, zero, suc, ◌+◌, ◌-◌, ◌≤◌, ◌<◌, ltb, leb, if◌then◌else◌, Bool, true, false, ◌≡◌, refl, arith,
  Bool-cases,
}
use can_do.Core.Value.{CandoValue, number}
use can_do.Vm.Machine.{
  CandoVm, cando_stack_max, cando_frames_max, cando_try_max, cando_loop_max, cando_max_throw_args,
  write,
}
use can_do.Vm.Machine.Act.{
  Run, Act, Effect, when, in_range, ok, raised, stopped, overrun, out_of_fuel, assertion_failed,
  out_of_bounds, wrong_tag, not_modelled, and_then, ◌>>=◌, push, peek, pop, pop_n, read_u16, jump,
  top_frame, local_at, as_number, Host, RuntimeError, raise, vm_runtime_error,
}

-- What holds in the state in which an instruction ends, if it ends in one. It does not end in an overrun
-- or without fuel.
abbrev pub Ends : {A : Type 0} → (CandoVm → Type 0) → Run A → Type 0
Ends P (ok a vm) = P vm
Ends P (raised vm) = P vm
Ends P (stopped r vm) = P vm
Ends P overrun = ⊥
Ends P out_of_fuel = ⊥
Ends P _ = Unit {0}

-- The saved depths of an open try frame are within the limits.
pub record IsSaved (vm : CandoVm) (i : ℕ) : Type 0 where
  pub stack_saved : (vm.try_stack i).stack_save ≤ cando_stack_max
  pub frame_saved : (vm.try_stack i).frame_save ≤ cando_frames_max
  pub loop_saved : (vm.try_stack i).loop_save ≤ cando_loop_max

pub record IsBounded (vm : CandoVm) : Type 0 where
  pub stack_fits : vm.stack_top ≤ cando_stack_max
  pub frames_fit : vm.frame_count ≤ cando_frames_max
  pub tries_fit : vm.try_depth ≤ cando_try_max
  pub loops_fit : vm.loop_depth ≤ cando_loop_max
  pub saves_fit : (i : ℕ) → i < vm.try_depth → IsSaved vm i
  pub slots_fit : (i : ℕ) → i < vm.frame_count → (vm.frames i).slots ≤ cando_stack_max

-- The effect of an action keeps to the limits.
abbrev pub Keeps : {A : Type 0} → Act A → Type 0
Keeps m = (vm : CandoVm) → IsBounded vm → Ends IsBounded (m vm)

module _ {A B : Type 0} where
  pub Ends-and_then :
      (r : Run A) (f : A → Act B)
      → Ends IsBounded r
      → ((a : A) → Keeps (f a))
      → Ends IsBounded (and_then r f)
  Ends-and_then (ok a vm) f h k = k a vm h
  Ends-and_then (raised vm) f h k = h
  Ends-and_then (stopped r vm) f h k = h
  Ends-and_then overrun f h k = h
  Ends-and_then out_of_fuel f h k = h
  Ends-and_then assertion_failed f h k = h
  Ends-and_then out_of_bounds f h k = h
  Ends-and_then wrong_tag f h k = h
  Ends-and_then not_modelled f h k = h

  pub Keeps-bind : (m : Act A) (f : A → Act B) → Keeps m → ((a : A) → Keeps (f a)) → Keeps (m >>= f)
  Keeps-bind m f h k vm b = Ends-and_then (m vm) f (h vm b) k

pub push-IsBounded : (v : CandoValue) → Keeps (push v)
unfolding push
push-IsBounded v vm b = ground arith

pub peek-IsBounded : (dist : ℕ) → Keeps (peek dist)
unfolding peek
peek-IsBounded dist vm b = ground arith

pub pop-IsBounded : Keeps pop
unfolding pop
pop-IsBounded vm b = ground arith

pub pop_n-IsBounded : (n : ℕ) → Keeps (pop_n n)
unfolding pop_n
pop_n-IsBounded zero vm b = b
pop_n-IsBounded (suc n) vm b = Keeps-bind _ _ pop-IsBounded (λ v. pop_n-IsBounded n) vm b

pub read_u16-IsBounded : Keeps read_u16
unfolding read_u16
read_u16-IsBounded vm b = ground arith

pub jump-IsBounded : (off : ℕ) → Keeps (jump off)
unfolding jump
jump-IsBounded off vm b = ground arith

pub top_frame-IsBounded : Keeps top_frame
unfolding top_frame
top_frame-IsBounded vm b = ground arith

pub local_at-IsBounded : (slot : ℕ) → Keeps (local_at slot)
unfolding local_at top_frame
local_at-IsBounded slot vm b = ground arith

pub as_number-IsBounded : (v : CandoValue) → Keeps (as_number v)
unfolding as_number
as_number-IsBounded (number bits) vm b = b
as_number-IsBounded _ vm b = tt

pub raise-IsBounded : (h : Host) (e : RuntimeError) → Keeps (raise h e)
unfolding raise vm_runtime_error
raise-IsBounded h e vm b = ground arith

pub if-IsBounded :
    {A : Type 0} (c : Bool) (m k : Act A) → Keeps m → Keeps k → Keeps (if c then m else k)
if-IsBounded true m k x y = x
if-IsBounded false m k x y = y

pub when-IsBounded : (c : Bool) (m : Effect) → Keeps m → Keeps (when c m)
when-IsBounded true m x = x
when-IsBounded false m x = λ vm b. b

pub in_range-IsBounded : {A : Type 0} (c : Bool) (m : Act A) → Keeps m → Keeps (in_range c m)
in_range-IsBounded true m x = x
in_range-IsBounded false m x = λ vm b. tt

pub Ends-if :
    {A : Type 0} (c : Bool) (x y : Run A)
    → Ends IsBounded x
    → (c ≡ false → Ends IsBounded y)
    → Ends IsBounded (if c then x else y)
Ends-if true x y p q = p
Ends-if false x y p q = q refl
