-- ===== src/Vm/Machine/Act.antt =====
-- source/vm/vm.c: how one instruction of vm_run ends, and the accesses that instructions are made of.
use can_do.Base.{
  ℕ, zero, suc, ◌+◌, ◌-◌, ltb, leb, if◌then◌else◌, Bool, true, false, List, [], ◌∷◌, Option, none,
  some, length,
}
use can_do.Core.Value.{CandoValue, null, bool, number, string}
use can_do.Vm.Chunk.{cando_read_u16}
use can_do.Vm.Machine.{
  CandoVm, CandoVmResult, CandoCallFrame, CodePtr, OpenUpvalue, cando_stack_max, write,
}

-- `ok`: DISPATCH(), with the value of an access. `raised`: goto handle_error. `stopped`: vm_run returns.
-- The rest ends the model. `overrun` is a new entry of a stack past the end of its array, and
-- `out_of_fuel` a loop that is still running when its fuel is spent: the code must not come to these.
-- The others are a failed assertion, which aborts, any other access outside an array, a union read under
-- another tag, and an instruction that is not modelled.
pub data Run (A : Type 0) : Type 0 where
  ok : A → CandoVm → Run A
  raised : CandoVm → Run A
  stopped : CandoVmResult → CandoVm → Run A
  overrun out_of_fuel assertion_failed out_of_bounds wrong_tag not_modelled : Run A

abbrev pub Act : Type 0 → Type 0
Act A = CandoVm → Run A

abbrev pub Effect : Type 0
Effect = Act (Unit {0})

-- What the C library and the hardware provide: the text of an error message with the place it names,
-- and the operations on doubles; of the cast to i64 a negative result counts as 0.
pub data RuntimeError : Type 0 where
  wrong_arity : ℕ → ℕ → RuntimeError
  call_overflow : RuntimeError
  not_callable : CandoValue → RuntimeError
  break_outside continue_outside : ℕ → ℕ → RuntimeError
  operands_not_numbers division_by_zero plus_not_number increment_not_number decrement_not_number
        comparison_not_numbers range_not_numbers no_tail_call no_async no_yield reraise_outside :
      RuntimeError

pub record Host : Type 0 where
  pub format : RuntimeError → CandoVm → List ℕ
  pub f64_lt : ℕ → ℕ → Bool
  pub f64_geq : ℕ → ℕ → Bool
  pub f64_eq : ℕ → ℕ → Bool
  pub f64_zero : ℕ
  pub f64_add : ℕ → ℕ → ℕ
  pub f64_sub : ℕ → ℕ → ℕ
  pub f64_mul : ℕ → ℕ → ℕ
  pub f64_div : ℕ → ℕ → ℕ
  pub fmod : ℕ → ℕ → ℕ
  pub pow : ℕ → ℕ → ℕ
  pub f64_dec : ℕ → ℕ
  pub f64_inc : ℕ → ℕ
  pub f64_trunc : ℕ → ℕ

abbrev pub and_then : {A B : Type 0} → Run A → (A → Act B) → Run B
and_then (ok a vm) f = f a vm
and_then (raised vm) f = raised vm
and_then (stopped r vm) f = stopped r vm
and_then overrun f = overrun
and_then out_of_fuel f = out_of_fuel
and_then assertion_failed f = assertion_failed
and_then out_of_bounds f = out_of_bounds
and_then wrong_tag f = wrong_tag
and_then not_modelled f = not_modelled

infixl 5 ◌>>=◌ ◌>>◌
abbrev pub ◌>>=◌ : {A B : Type 0} → Act A → (A → Act B) → Act B
◌>>=◌ m f vm = and_then (m vm) f

abbrev pub ◌>>◌ : {A B : Type 0} → Act A → Act B → Act B
m >> k = m >>= λ _. k

module _ {A : Type 0} where
  abbrev pub pure : A → Act A
  pure a vm = ok a vm

  abbrev pub gets : (CandoVm → A) → Act A
  gets f vm = ok (f vm) vm

  abbrev pub in_range : Bool → Act A → Act A
  in_range c m vm = if c then m vm else out_of_bounds

  abbrev pub or_out : Option A → Act A
  or_out none vm = out_of_bounds
  or_out (some a) vm = ok a vm

abbrev pub modify : (CandoVm → CandoVm) → Effect
modify f vm = ok tt (f vm)

abbrev pub when : Bool → Effect → Effect
when c m vm = if c then m vm else ok tt vm

-- CANDO_ASSERT_MSG, in a build that keeps assertions.
abbrev pub assert : Bool → Effect
assert c vm = if c then ok tt vm else assertion_failed

-- A write to the cell of an array behind the last one in use, whose bound is `c`.
abbrev pub new_entry : Bool → Effect → Effect
new_entry c m vm = if c then m vm else overrun

-- cando_vm_push
unfoldable pub push : CandoValue → Effect
push val = do
  depth ← gets (λ vm. vm.stack_top)
  assert (ltb depth cando_stack_max)
  new_entry (ltb depth cando_stack_max)
      (modify (λ vm. record vm { stack = write vm.stack depth val; stack_top = depth + 1 }))

-- cando_vm_peek
unfoldable pub peek : ℕ → Act CandoValue
peek dist = do
  depth ← gets (λ vm. vm.stack_top)
  assert (ltb dist depth)
  gets (λ vm. vm.stack (depth - 1 - dist))

-- cando_vm_pop
unfoldable pub pop : Act CandoValue
pop = do
  depth ← gets (λ vm. vm.stack_top)
  assert (ltb 0 depth)
  modify (λ vm. record vm { stack_top = depth - 1 })
  gets (λ vm. vm.stack (depth - 1))

-- `n` calls of POP, their values released.
unfoldable pub pop_n : ℕ → Effect
pop_n zero = pure tt
pop_n (suc n) = do _ ← pop; pop_n n

-- READ_U16
unfoldable pub read_u16 : Act ℕ
read_u16 = do
  at ← gets (λ vm. vm.ip)
  in_range (ltb (at.offset + 1) (length at.block)) (do
    modify (λ vm. record vm { ip = record at { offset = at.offset + 2 } })
    pure (cando_read_u16 at.block at.offset))

-- `ip` plus a u16 that is read as an i16.
unfoldable pub shifted : CodePtr → ℕ → Option CodePtr
shifted at off =
    if ltb off 32768
    then some (record at { offset = at.offset + off })
    else if leb (65536 - off) at.offset
    then some (record at { offset = at.offset - (65536 - off) })
    else none

unfoldable pub jump : ℕ → Effect
jump off = do
  at ← gets (λ vm. vm.ip)
  target ← or_out (shifted at off)
  modify (λ vm. record vm { ip = target })

-- The frame of vm_run: the topmost.
unfoldable pub top_frame : Act CandoCallFrame
top_frame = do
  count ← gets (λ vm. vm.frame_count)
  in_range (ltb 0 count) (gets (λ vm. vm.frames (count - 1)))

-- The address of `frame->slots[slot]`.
unfoldable pub local_at : ℕ → Act ℕ
local_at slot = do
  frame ← top_frame
  in_range (ltb (frame.slots + slot) cando_stack_max) (pure (frame.slots + slot))

-- The number in a value, whose tag the code does not test.
unfoldable pub as_number : CandoValue → Act ℕ
as_number (number bits) vm = ok bits vm
as_number _ vm = wrong_tag

unfoldable pub vm_is_truthy : CandoValue → Bool
vm_is_truthy null = false
vm_is_truthy (bool b) = b
vm_is_truthy _ = true

-- vm_runtime_error with vm_error_commit, then `goto handle_error`.
unfoldable pub vm_runtime_error : Host → RuntimeError → CandoVm → CandoVm
vm_runtime_error h e vm = record vm {
  has_error = true;
  error_vals = write vm.error_vals 0 (string (h.format e vm));
  error_val_count = 1;
}

unfoldable pub raise : Host → RuntimeError → Effect
raise h e vm = raised (vm_runtime_error h e vm)

unfoldable pub close_from :
    ℕ → (ℕ → CandoValue) → (ℕ → CandoValue) → List OpenUpvalue → List OpenUpvalue × (ℕ → CandoValue)
close_from last stack closed [] = ([], closed)
close_from last stack closed (u ∷ us) =
    let rest = close_from last stack (write closed u.upvalue (stack u.location)) us in
    if leb last u.location then rest else (u ∷ us, closed)

unfoldable pub vm_close_upvalues : ℕ → CandoVm → CandoVm
vm_close_upvalues last vm =
    let (left, closed) = close_from last vm.stack vm.closed vm.open_upvalues in
    record vm { open_upvalues = left; closed = closed }
