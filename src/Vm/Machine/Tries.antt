-- ===== src/Vm/Machine/Tries.antt =====
-- source/vm/vm.c, vm_run: the handlers of the try stack, and the unwinding behind `handle_error`.
mod Parts
pub mod Throw
pub mod Catch
pub mod Delivery
pub mod Stale
use can_do.Base.{
  ℕ, zero, suc, ◌+◌, ◌-◌, ◌==◌, ltb, leb, if◌then◌else◌, Bool, true, false, ◌||◌, not, Option, none,
  some,
}
use can_do.Core.Value.{CandoValue, null}
use can_do.Vm.Machine.{
  CandoVm, CandoTryFrame, CodePtr, vm_runtime_err, cando_try_max, cando_max_throw_args, write,
}
use can_do.Vm.Machine.Act.{
  Run, Effect, Host, reraise_outside, ok, raised, stopped, assertion_failed, out_of_bounds,
  wrong_tag, not_modelled, ◌>>=◌, ◌>>◌, pure, gets, modify, when, assert, new_entry, out_of_fuel,
  in_range, or_out, push, pop, pop_n, read_u16, shifted, vm_runtime_error, vm_close_upvalues,
}

unfoldable pub try_begin : Effect
unfolding read_u16 shifted
try_begin = do
  catch_off ← read_u16
  depth ← gets (λ vm. vm.try_depth)
  assert (ltb depth cando_try_max)
  at ← gets (λ vm. vm.ip)
  catch_ip ← or_out (shifted at catch_off)
  new_entry (ltb depth cando_try_max) (
      modify (λ vm. record vm {
        try_stack = write vm.try_stack depth (record {
          catch_ip = some catch_ip;
          finally_ip = none;
          stack_save = vm.stack_top;
          frame_save = vm.frame_count;
          loop_save = vm.loop_depth;
        });
        try_depth = depth + 1;
      }))

unfoldable pub try_end : Effect
try_end =
    modify (λ vm. record vm {
      try_depth = if ltb 0 vm.try_depth then vm.try_depth - 1 else vm.try_depth;
    })

-- `vm->error_vals[i]`, for an `i` below the number of thrown values, or null.
abbrev pub param_value : CandoVm → ℕ → CandoValue
param_value vm i = if ltb i vm.error_val_count then vm.error_vals i else null

unfoldable pub push_param : ℕ → Effect
unfolding push
push_param i = do
  count ← gets (λ vm. vm.error_val_count)
  in_range (not (ltb i count) || ltb i cando_max_throw_args) (pure tt)
  val ← gets (λ vm. param_value vm i)
  push val

-- The parameters of a catch: the last first, so that the first is on top.
unfoldable pub push_params : ℕ → Effect
unfolding push_param
push_params zero = pure tt
push_params (suc i) = push_param i >> push_params i

-- The loop over all cells of `error_vals`.
unfoldable pub clear_errors : CandoVm → CandoVm
clear_errors vm = record vm { error_vals = λ i. null }

unfoldable pub catch_begin : Effect
unfolding read_u16 push_params clear_errors
catch_begin = do
  n ← read_u16
  push_params n
  modify (λ vm. record (clear_errors vm) { error_val_count = 0 })

unfoldable pub finally_begin : Effect
unfolding read_u16 shifted
finally_begin = do
  off ← read_u16
  depth ← gets (λ vm. vm.try_depth)
  when (ltb 0 depth) (do
    at ← gets (λ vm. vm.ip)
    finally_ip ← or_out (shifted at off)
    modify (λ vm. record vm {
      try_stack =
          write vm.try_stack (depth - 1)
            (record (vm.try_stack (depth - 1)) { finally_ip = some finally_ip });
    }))

-- A cell past the end of `error_vals` cannot be written.
unfoldable pub pop_error : ℕ → Effect
unfolding pop
pop_error i = do
  val ← pop
  in_range (ltb i cando_max_throw_args)
      (modify (λ vm. record vm { error_vals = write vm.error_vals i val }))

-- The last thrown value is on top.
unfoldable pub pop_errors : ℕ → Effect
unfolding pop_error
pop_errors zero = pure tt
pop_errors (suc i) = pop_error i >> pop_errors i

-- The old values are released, and the new ones counted.
unfoldable pub begin_throw : ℕ → CandoVm → CandoVm
unfolding clear_errors
begin_throw count vm = record (clear_errors vm) { error_val_count = count }

unfoldable pub throw_count : ℕ → Effect
unfolding begin_throw pop_errors
throw_count count = do
  modify (begin_throw count)
  pop_errors count
  (λ vm. raised (record vm { has_error = true }))

unfoldable pub throw_values : Effect
unfolding read_u16 throw_count
throw_values = do n ← read_u16; throw_count (if n == 0 then 1 else n)

unfoldable pub reraise : Host → Effect
unfolding vm_runtime_error
reraise h vm = raised (if vm.has_error then vm else vm_runtime_error h reraise_outside vm)

-- The frames above a number of frames are dropped, the topmost first: `n` is how many there are.
unfoldable pub drop_frames : ℕ → CandoVm → CandoVm
unfolding vm_close_upvalues
drop_frames zero vm = vm
drop_frames (suc n) vm =
    let next = vm_close_upvalues (vm.frames (vm.frame_count - 1)).slots vm in
    drop_frames n (record next { frame_count = vm.frame_count - 1 })

-- The state at which the handler of `tf` is entered, if it has one.
unfoldable pub unwind_to : CandoTryFrame → CandoVm → CandoVm
unfolding drop_frames
unwind_to tf vm =
    let kept = drop_frames (vm.frame_count - tf.frame_save) vm in
    record kept {
      stack_top = if ltb tf.stack_save kept.stack_top then tf.stack_save else kept.stack_top;
      loop_depth = tf.loop_save;
      try_depth = kept.try_depth - 1;
    }

-- LOAD_FRAME(), then the register `ip` is set.
unfoldable pub enter : CodePtr → Effect
enter at vm = if ltb 0 vm.frame_count then ok tt (record vm { ip = at }) else out_of_bounds

-- The innermost open try frame.
abbrev pub innermost : CandoVm → CandoTryFrame
innermost vm = vm.try_stack (vm.try_depth - 1)

-- The loop behind `handle_error`, at most `fuel` rounds of it.
unfoldable pub unwind : ℕ → Effect
unfolding unwind_to enter
unwind zero vm = out_of_fuel
unwind (suc fuel) vm =
    let tf = innermost vm in
    let next = unwind_to tf vm in
    let outer = unwind fuel next in
    if vm.try_depth == 0 then stopped vm_runtime_err vm else (elim tf.catch_ip [
      | some at ↦ enter at (record next { has_error = false })
      | none ↦ elim tf.finally_ip [ some at ↦ enter at next | none ↦ outer ]
    ])

-- A round closes a try block, so the fuel is one more than there are.
unfoldable pub handle_error : Effect
unfolding unwind
handle_error vm = unwind (suc vm.try_depth) vm
