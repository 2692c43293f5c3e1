-- ===== src/Vm/Machine.antt =====
-- source/vm/vm.h and vm.c: the state of the machine. An array of the struct is a function from indices,
-- and its bound is tested where the code reads and writes it. A pointer into the value stack is an index,
-- and a pointer into code is the block with an offset. A NULL pointer is `none`. The register `ip` of
-- vm_run is a field. Globals, native functions, handles, modules, prototypes and the text `error_msg` are
-- not fields.
pub mod Act
pub mod Basics
pub mod Arith
pub mod Calls
pub mod Functions
pub mod Loops
pub mod Tries
pub mod Exec
pub mod Instr
pub mod Bounds
mod Tests
use can_do.Base.{ℕ, ◌==◌, if◌then◌else◌, Bool, false, List, [], Option, none}
use can_do.Core.Value.{CandoValue, null}
use can_do.Vm.Chunk.{CandoChunk, cando_chunk_new}

abbrev pub cando_stack_max : ℕ
cando_stack_max = 2048

abbrev pub cando_frames_max : ℕ
cando_frames_max = 256

abbrev pub cando_try_max : ℕ
cando_try_max = 64

abbrev pub cando_loop_max : ℕ
cando_loop_max = 64

abbrev pub cando_max_throw_args : ℕ
cando_max_throw_args = 32

-- A pointer into a block of code. The block stays the same while the machine runs.
pub record CodePtr : Type 0 where
  pub block : List ℕ
  pub offset : ℕ

-- The constants stand beside the chunk. Captured variables are not part of it.
pub record CandoClosure : Type 0 where
  pub chunk : CandoChunk
  pub constants : List CandoValue

pub record CandoCallFrame : Type 0 where
  pub closure : CandoClosure
  pub ip : CodePtr
  pub slots : ℕ
  pub ret_count : ℕ
  pub is_fluent : Bool

pub record CandoTryFrame : Type 0 where
  pub catch_ip : Option CodePtr
  pub finally_ip : Option CodePtr
  pub stack_save : ℕ
  pub frame_save : ℕ
  pub loop_save : ℕ

pub record CandoLoopFrame : Type 0 where
  pub break_ip : CodePtr
  pub cont_ip : CodePtr
  pub stack_save : ℕ
  pub loop_type : ℕ

-- An upvalue that is still open: its address and the stack slot that it points to.
pub record OpenUpvalue : Type 0 where
  pub upvalue : ℕ
  pub location : ℕ

pub data CandoVmResult : Type 0 where
  vm_ok vm_runtime_err vm_halt vm_eval_done : CandoVmResult

-- `int` fields are 32-bit words in two's complement. `closed` is the field of that name of each upvalue,
-- by its address. `~0u` as a stop frame is `none`, and the results of an eval are a list.
pub record CandoVm : Type 0 where
  pub ip : CodePtr
  pub stack : ℕ → CandoValue
  pub stack_top : ℕ
  pub frames : ℕ → CandoCallFrame
  pub frame_count : ℕ
  pub try_stack : ℕ → CandoTryFrame
  pub try_depth : ℕ
  pub loop_stack : ℕ → CandoLoopFrame
  pub loop_depth : ℕ
  pub open_upvalues : List OpenUpvalue
  pub closed : ℕ → CandoValue
  pub error_vals : ℕ → CandoValue
  pub error_val_count : ℕ
  pub has_error : Bool
  pub last_ret_count : ℕ
  pub spread_extra : ℕ
  pub array_extra : ℕ
  pub eval_stop_frame : Option ℕ
  pub eval_results : List CandoValue
  pub thread_stop_frame : Option ℕ
  pub thread_results : ℕ → CandoValue
  pub thread_result_count : ℕ

abbrev pub nowhere : CodePtr
nowhere = record { block = []; offset = 0 }

-- The arrays of frames hold no particular contents at first: these.
abbrev pub cando_vm_init : CandoVm
cando_vm_init = record {
  ip = nowhere;
  stack = λ i. null;
  stack_top = 0;
  frames = λ i. record {
    closure = record { chunk = cando_chunk_new 0 false; constants = [] };
    ip = nowhere;
    slots = 0;
    ret_count = 0;
    is_fluent = false;
  };
  frame_count = 0;
  try_stack = λ i. record {
    catch_ip = none;
    finally_ip = none;
    stack_save = 0;
    frame_save = 0;
    loop_save = 0;
  };
  try_depth = 0;
  loop_stack = λ i. record { break_ip = nowhere; cont_ip = nowhere; stack_save = 0; loop_type = 0 };
  loop_depth = 0;
  open_upvalues = [];
  closed = λ i. null;
  error_vals = λ i. null;
  error_val_count = 0;
  has_error = false;
  last_ret_count = 0;
  spread_extra = 0;
  array_extra = 0;
  eval_stop_frame = none;
  eval_results = [];
  thread_stop_frame = none;
  thread_results = λ i. null;
  thread_result_count = 0;
}

-- An array with one cell written.
abbrev pub write {ℓ} : {A : Type ℓ} → (ℕ → A) → ℕ → A → ℕ → A
write f i a j = if j == i then a else f j
