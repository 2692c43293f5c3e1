-- ===== src/Vm/Machine/Loops.antt =====
-- source/vm/vm.c, vm_run: the handlers of the loop stack, and of the iteration over values that OP_FOR_INIT
-- has put on the stack under their number and the index.
pub mod State
pub mod Iteration
pub mod Break
mod Tests
use can_do.Base.{ℕ, ◌+◌, ◌-◌, ◌/◌, ◌%◌, ◌==◌, ltb, leb, if◌then◌else◌, Bool, true, ◌&&◌, ◌||◌}
use can_do.Core.Value.{CandoValue, number}
use can_do.Vm.Machine.{CandoVm, CandoLoopFrame, cando_loop_max, cando_stack_max, write}
use can_do.Vm.Machine.Act.{
  Act, Effect, new_entry, Host, RuntimeError, break_outside, continue_outside, ◌>>=◌, ◌>>◌, pure,
  gets, modify, when, assert, in_range, or_out, push, pop, pop_n, read_u16, jump, as_number, raise,
}
use can_do.Vm.Machine.Basics.{back_by}

-- The value at `stack_top - 1 - dist`, read without the assertion of PEEK.
unfoldable pub below_top : ℕ → Act CandoValue
below_top dist = do
  depth ← gets (λ vm. vm.stack_top)
  in_range (ltb dist depth) (gets (λ vm. vm.stack (depth - 1 - dist)))

unfoldable pub loop_mark : Effect
unfolding read_u16 back_by
loop_mark = do
  break_fwd ← read_u16
  b_packed ← read_u16
  at ← gets (λ vm. vm.ip)
  cont_ip ← or_out (back_by at (b_packed % 16384))
  depth ← gets (λ vm. vm.loop_depth)
  assert (ltb depth cando_loop_max)
  new_entry (ltb depth cando_loop_max) (
      modify (λ vm. record vm {
        loop_stack = write vm.loop_stack depth (record {
          break_ip = record at { offset = at.offset + break_fwd };
          cont_ip = cont_ip;
          stack_save = vm.stack_top;
          loop_type = b_packed / 16384 % 4;
        });
        loop_depth = depth + 1;
      }))

unfoldable pub loop_end : Effect
loop_end = modify (λ vm. record vm {
  loop_depth = if ltb 0 vm.loop_depth then vm.loop_depth - 1 else vm.loop_depth;
})

-- The number of the loop frame `depth` levels up, if there is one.
unfoldable pub is_outside : ℕ → ℕ → Bool
is_outside depth loop_depth = (loop_depth == 0) || leb loop_depth depth

-- OP_BREAK up to the loop's own state: pops what lies above the mark.
unfoldable pub pop_to : ℕ → Effect
unfolding pop_n
pop_to save = do depth ← gets (λ vm. vm.stack_top); pop_n (depth - save)

-- The iterator state of a loop of that type is popped.
unfoldable pub pop_state : Host → ℕ → Effect
unfolding pop pop_n below_top as_number
pop_state h loop_type =
    if loop_type == 2
    then pop_n 4
    else if loop_type == 1
    then (do val ← below_top 0; count ← as_number val; pop_n 2; pop_n (h.f64_trunc count))
    else pure tt

unfoldable pub end_loop : CandoLoopFrame → ℕ → CandoVm → CandoVm
end_loop frame idx vm = record vm { spread_extra = 0; ip = frame.break_ip; loop_depth = idx }

-- OP_BREAK out of the loop with that frame, `idx` frames above the bottom.
unfoldable pub leave_loop : Host → CandoLoopFrame → ℕ → Effect
unfolding pop_to pop_state end_loop
leave_loop h frame idx = do
  pop_to frame.stack_save
  pop_state h frame.loop_type
  modify (end_loop frame idx)

unfoldable pub loop_break : Host → Effect
unfolding read_u16 is_outside leave_loop raise
loop_break h = do
  depth ← read_u16
  loop_depth ← gets (λ vm. vm.loop_depth)
  if is_outside depth loop_depth then raise h (break_outside depth loop_depth) else (do
    frame ← gets (λ vm. vm.loop_stack (loop_depth - 1 - depth))
    leave_loop h frame (loop_depth - 1 - depth))

unfoldable pub loop_continue : Host → Effect
unfolding read_u16 is_outside raise
loop_continue h = do
  depth ← read_u16
  loop_depth ← gets (λ vm. vm.loop_depth)
  if is_outside depth loop_depth
      then raise h (continue_outside depth loop_depth)
      else modify (λ vm. record vm {
        ip = (vm.loop_stack (loop_depth - 1 - depth)).cont_ip;
        loop_depth = loop_depth - 1 - depth;
      })

-- OP_FOR_NEXT while values are left: the index goes up in place, and the value at it is pushed.
unfoldable pub next_value : Host → ℕ → ℕ → Effect
unfolding push
next_value h count index = do
  depth ← gets (λ vm. vm.stack_top)
  in_range (leb (2 + h.f64_trunc count) (depth + h.f64_trunc index)) (do
    modify (λ vm. record vm { stack = write vm.stack (depth - 1) (number (h.f64_inc index)) })
    val ←
        in_range (ltb (depth + h.f64_trunc index - 2 - h.f64_trunc count) cando_stack_max)
          (gets (λ vm. vm.stack (depth + h.f64_trunc index - 2 - h.f64_trunc count)))
    push val)

-- OP_FOR_NEXT when no value is left.
unfoldable pub end_values : Host → ℕ → ℕ → Effect
unfolding pop_n jump
end_values h count off = do pop_n 2; pop_n (h.f64_trunc count); jump off

unfoldable pub for_next : Host → Effect
unfolding read_u16 below_top as_number end_values next_value
for_next h = do
  off ← read_u16
  top ← below_top 0
  index ← as_number top
  below ← below_top 1
  count ← as_number below
  if h.f64_geq index count then end_values h count off else next_value h count index
