-- ===== src/Vm/Machine/Tries/Stale.antt =====
-- source/vm/vm.c: OP_RETURN and the try blocks and loops that the function has open.
use can_do.Base.{ℕ, suc, ◌+◌, ◌-◌, ◌<◌, some, false, ◌≡◌, refl, ap, ◌∙◌, arith}
use mathlib.Core.Path.{subst}
use can_do.Vm.Chunk.{cando_read_u16}
use can_do.Vm.Machine.{CandoVm, CandoCallFrame, CandoTryFrame, CodePtr}
use can_do.Vm.Machine.Act.{Run, ok, read_u16, top_frame, vm_close_upvalues}
use can_do.Vm.Machine.Calls.{
  return_to_thread, return_to_eval, return_to_caller, return_from, leave, run_return,
}
use can_do.Vm.Machine.Tries.{unwind_to, handle_error}
use can_do.Vm.Machine.Tries.Parts.{unwind_to-IsUnwound}
use can_do.Vm.Machine.Tries.Throw.{handle_error_caught}

-- What holds if an instruction ends in the next one.
abbrev Goes : {A : Type 0} → (CandoVm → Type 0) → Run A → Type 0
Goes P (ok a vm) = P vm
Goes P _ = Unit {0}

record IsReturned (vm next : CandoVm) : Type 0 where
  frames : next.frame_count ≡ vm.frame_count - 1
  alive : 0 < next.frame_count
  blocks : next.try_stack ≡ vm.try_stack
  depth : next.try_depth ≡ vm.try_depth
  loops : next.loop_depth ≡ vm.loop_depth

return_from-IsReturned :
    (frame : CandoCallFrame) (n : ℕ) (vm : CandoVm)
    → Goes (IsReturned vm) (return_from frame n (leave frame n vm))
unfolding return_from return_to_thread return_to_eval return_to_caller leave vm_close_upvalues
return_from-IsReturned frame n vm = ground arith

run_return-IsReturned : (vm : CandoVm) → Goes (IsReturned vm) (run_return vm)
unfolding run_return read_u16 top_frame
run_return-IsReturned vm = ground (
  arith,
  return_from-IsReturned (vm.frames (vm.frame_count - 1)) (cando_read_u16 vm.ip.block vm.ip.offset)
      (record vm { ip = record vm.ip { offset = vm.ip.offset + 2 } }),
)

-- A function that returns from inside a try block leaves the block open: an error in the caller then goes
-- to the catch of the function that is gone, with the frame of the caller.
pub return-leaves_block :
    (vm next : CandoVm) (d : ℕ) (at : CodePtr)
    → run_return vm ≡ ok tt next
    → vm.try_depth ≡ suc d
    → (vm.try_stack d).catch_ip ≡ some at
    → (vm.try_stack d).frame_save ≡ vm.frame_count
    → (caught : CandoVm) × (handle_error next ≡ ok tt caught)
      × (caught.ip ≡ at)
      × (caught.frame_count ≡ vm.frame_count - 1)
return-leaves_block vm next d at e t c f =
    let r = subst (Goes (IsReturned vm)) e (run_return-IsReturned vm) in
    let u = unwind_to-IsUnwound (next.try_stack d) next in
    let save = ap (λ (g : ℕ → CandoTryFrame). (g d).frame_save) r.blocks in
    (
      record (unwind_to (next.try_stack d) next) { ip = at; has_error = false },
      handle_error_caught next d at (r.depth ∙ t)
          (ap (λ (g : ℕ → CandoTryFrame). (g d).catch_ip) r.blocks ∙ c) r.alive
          (omega (arith, save, r.alive, r.frames)),
      refl,
      omega (arith, save, u.frames_back, r.frames),
    )
