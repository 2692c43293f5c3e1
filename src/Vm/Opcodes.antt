-- ===== src/Vm/Opcodes.antt =====
-- source/vm/opcodes.h and opcodes.c: the instruction set, the byte of each instruction, the table of
-- operand formats, and the operands as little-endian 16-bit words in the code.
use can_do.Base.{ℕ}

pub data CandoOpcode : Type 0 where
  op_const op_null op_true op_false op_pop op_pop_n op_dup op_load_local op_store_local op_def_local
        op_def_const_local op_load_global op_store_global op_def_global op_def_const_global
        op_load_upval op_store_upval op_close_upval op_add op_sub op_mul op_div op_mod op_pow op_neg
        op_pos op_incr op_decr op_eq op_neq op_lt op_gt op_leq op_geq op_eq_stack op_neq_stack
        op_lt_stack op_gt_stack op_leq_stack op_geq_stack op_range_check op_bit_and op_bit_or
        op_bit_xor op_bit_not op_lshift op_rshift op_not op_and_jump op_or_jump op_new_object
        op_new_array op_get_field op_set_field op_get_index op_set_index op_len op_keys_of
        op_vals_of op_jump op_jump_if_false op_jump_if_true op_loop op_break op_continue
        op_loop_mark op_loop_end op_closure op_call op_method_call op_fluent_call op_return
        op_tail_call op_load_vararg op_vararg_len op_unpack op_range_asc op_range_desc op_for_init
        op_for_next op_for_over_init op_for_over_next op_pipe_init op_pipe_next op_filter_next
        op_pipe_end op_pipe_collect op_filter_collect op_try_begin op_try_end op_catch_begin
        op_finally_begin op_throw op_reraise op_async op_await op_yield op_thread op_new_class
        op_bind_method op_inherit op_mask_pass op_mask_skip op_mask_apply op_spread_ret
        op_array_spread op_truncate_ret op_eq_spread op_neq_spread op_lt_spread op_gt_spread
        op_leq_spread op_geq_spread op_nop op_halt :
      CandoOpcode

pub data CandoOpFmt : Type 0 where
  opfmt_none opfmt_a opfmt_a_b : CandoOpFmt

-- The value of an enumerator, which is the byte in the code.
unfoldable pub byte_of : CandoOpcode → ℕ
byte_of op_const = 0
byte_of op_null = 1
byte_of op_true = 2
byte_of op_false = 3
byte_of op_pop = 4
byte_of op_pop_n = 5
byte_of op_dup = 6
byte_of op_load_local = 7
byte_of op_store_local = 8
byte_of op_def_local = 9
byte_of op_def_const_local = 10
byte_of op_load_global = 11
byte_of op_store_global = 12
byte_of op_def_global = 13
byte_of op_def_const_global = 14
byte_of op_load_upval = 15
byte_of op_store_upval = 16
byte_of op_close_upval = 17
byte_of op_add = 18
byte_of op_sub = 19
byte_of op_mul = 20
byte_of op_div = 21
byte_of op_mod = 22
byte_of op_pow = 23
byte_of op_neg = 24
byte_of op_pos = 25
byte_of op_incr = 26
byte_of op_decr = 27
byte_of op_eq = 28
byte_of op_neq = 29
byte_of op_lt = 30
byte_of op_gt = 31
byte_of op_leq = 32
byte_of op_geq = 33
byte_of op_eq_stack = 34
byte_of op_neq_stack = 35
byte_of op_lt_stack = 36
byte_of op_gt_stack = 37
byte_of op_leq_stack = 38
byte_of op_geq_stack = 39
byte_of op_range_check = 40
byte_of op_bit_and = 41
byte_of op_bit_or = 42
byte_of op_bit_xor = 43
byte_of op_bit_not = 44
byte_of op_lshift = 45
byte_of op_rshift = 46
byte_of op_not = 47
byte_of op_and_jump = 48
byte_of op_or_jump = 49
byte_of op_new_object = 50
byte_of op_new_array = 51
byte_of op_get_field = 52
byte_of op_set_field = 53
byte_of op_get_index = 54
byte_of op_set_index = 55
byte_of op_len = 56
byte_of op_keys_of = 57
byte_of op_vals_of = 58
byte_of op_jump = 59
byte_of op_jump_if_false = 60
byte_of op_jump_if_true = 61
byte_of op_loop = 62
byte_of op_break = 63
byte_of op_continue = 64
byte_of op_loop_mark = 65
byte_of op_loop_end = 66
byte_of op_closure = 67
byte_of op_call = 68
byte_of op_method_call = 69
byte_of op_fluent_call = 70
byte_of op_return = 71
byte_of op_tail_call = 72
byte_of op_load_vararg = 73
byte_of op_vararg_len = 74
byte_of op_unpack = 75
byte_of op_range_asc = 76
byte_of op_range_desc = 77
byte_of op_for_init = 78
byte_of op_for_next = 79
byte_of op_for_over_init = 80
byte_of op_for_over_next = 81
byte_of op_pipe_init = 82
byte_of op_pipe_next = 83
byte_of op_filter_next = 84
byte_of op_pipe_end = 85
byte_of op_pipe_collect = 86
byte_of op_filter_collect = 87
byte_of op_try_begin = 88
byte_of op_try_end = 89
byte_of op_catch_begin = 90
byte_of op_finally_begin = 91
byte_of op_throw = 92
byte_of op_reraise = 93
byte_of op_async = 94
byte_of op_await = 95
byte_of op_yield = 96
byte_of op_thread = 97
byte_of op_new_class = 98
byte_of op_bind_method = 99
byte_of op_inherit = 100
byte_of op_mask_pass = 101
byte_of op_mask_skip = 102
byte_of op_mask_apply = 103
byte_of op_spread_ret = 104
byte_of op_array_spread = 105
byte_of op_truncate_ret = 106
byte_of op_eq_spread = 107
byte_of op_neq_spread = 108
byte_of op_lt_spread = 109
byte_of op_gt_spread = 110
byte_of op_leq_spread = 111
byte_of op_geq_spread = 112
byte_of op_nop = 113
byte_of op_halt = 114

-- The table s_opcode_fmts. An instruction that it leaves out has format 0, OPFMT_NONE.
unfoldable pub cando_opcode_fmt : CandoOpcode → CandoOpFmt
cando_opcode_fmt op_const = opfmt_a
cando_opcode_fmt op_null = opfmt_none
cando_opcode_fmt op_true = opfmt_none
cando_opcode_fmt op_false = opfmt_none
cando_opcode_fmt op_pop = opfmt_none
cando_opcode_fmt op_pop_n = opfmt_a
cando_opcode_fmt op_dup = opfmt_none
cando_opcode_fmt op_load_local = opfmt_a
cando_opcode_fmt op_store_local = opfmt_a
cando_opcode_fmt op_def_local = opfmt_a
cando_opcode_fmt op_def_const_local = opfmt_a
cando_opcode_fmt op_load_global = opfmt_a
cando_opcode_fmt op_store_global = opfmt_a
cando_opcode_fmt op_def_global = opfmt_a
cando_opcode_fmt op_def_const_global = opfmt_a
cando_opcode_fmt op_load_upval = opfmt_a
cando_opcode_fmt op_store_upval = opfmt_a
cando_opcode_fmt op_close_upval = opfmt_a
cando_opcode_fmt op_add = opfmt_none
cando_opcode_fmt op_sub = opfmt_none
cando_opcode_fmt op_mul = opfmt_none
cando_opcode_fmt op_div = opfmt_none
cando_opcode_fmt op_mod = opfmt_none
cando_opcode_fmt op_pow = opfmt_none
cando_opcode_fmt op_neg = opfmt_none
cando_opcode_fmt op_pos = opfmt_none
cando_opcode_fmt op_incr = opfmt_none
cando_opcode_fmt op_decr = opfmt_none
cando_opcode_fmt op_eq = opfmt_none
cando_opcode_fmt op_neq = opfmt_none
cando_opcode_fmt op_lt = opfmt_none
cando_opcode_fmt op_gt = opfmt_none
cando_opcode_fmt op_leq = opfmt_none
cando_opcode_fmt op_geq = opfmt_none
cando_opcode_fmt op_eq_stack = opfmt_a
cando_opcode_fmt op_neq_stack = opfmt_a
cando_opcode_fmt op_lt_stack = opfmt_a
cando_opcode_fmt op_gt_stack = opfmt_a
cando_opcode_fmt op_leq_stack = opfmt_a
cando_opcode_fmt op_geq_stack = opfmt_a
cando_opcode_fmt op_range_check = opfmt_a
cando_opcode_fmt op_bit_and = opfmt_none
cando_opcode_fmt op_bit_or = opfmt_none
cando_opcode_fmt op_bit_xor = opfmt_none
cando_opcode_fmt op_bit_not = opfmt_none
cando_opcode_fmt op_lshift = opfmt_none
cando_opcode_fmt op_rshift = opfmt_none
cando_opcode_fmt op_not = opfmt_none
cando_opcode_fmt op_and_jump = opfmt_a
cando_opcode_fmt op_or_jump = opfmt_a
cando_opcode_fmt op_new_object = opfmt_none
cando_opcode_fmt op_new_array = opfmt_a
cando_opcode_fmt op_get_field = opfmt_a
cando_opcode_fmt op_set_field = opfmt_a
cando_opcode_fmt op_get_index = opfmt_none
cando_opcode_fmt op_set_index = opfmt_none
cando_opcode_fmt op_len = opfmt_none
cando_opcode_fmt op_keys_of = opfmt_none
cando_opcode_fmt op_vals_of = opfmt_none
cando_opcode_fmt op_jump = opfmt_a
cando_opcode_fmt op_jump_if_false = opfmt_a
cando_opcode_fmt op_jump_if_true = opfmt_a
cando_opcode_fmt op_loop = opfmt_a
cando_opcode_fmt op_break = opfmt_a
cando_opcode_fmt op_continue = opfmt_a
cando_opcode_fmt op_loop_mark = opfmt_a_b
cando_opcode_fmt op_loop_end = opfmt_none
cando_opcode_fmt op_closure = opfmt_a
cando_opcode_fmt op_call = opfmt_a
cando_opcode_fmt op_method_call = opfmt_a_b
cando_opcode_fmt op_fluent_call = opfmt_a_b
cando_opcode_fmt op_return = opfmt_a
cando_opcode_fmt op_tail_call = opfmt_a
cando_opcode_fmt op_load_vararg = opfmt_a
cando_opcode_fmt op_vararg_len = opfmt_none
cando_opcode_fmt op_unpack = opfmt_none
cando_opcode_fmt op_range_asc = opfmt_none
cando_opcode_fmt op_range_desc = opfmt_none
cando_opcode_fmt op_for_init = opfmt_a
cando_opcode_fmt op_for_next = opfmt_a
cando_opcode_fmt op_for_over_init = opfmt_a_b
cando_opcode_fmt op_for_over_next = opfmt_a
cando_opcode_fmt op_pipe_init = opfmt_a
cando_opcode_fmt op_pipe_next = opfmt_a
cando_opcode_fmt op_filter_next = opfmt_a
cando_opcode_fmt op_pipe_end = opfmt_none
cando_opcode_fmt op_pipe_collect = opfmt_none
cando_opcode_fmt op_filter_collect = opfmt_none
cando_opcode_fmt op_try_begin = opfmt_a
cando_opcode_fmt op_try_end = opfmt_none
cando_opcode_fmt op_catch_begin = opfmt_a
cando_opcode_fmt op_finally_begin = opfmt_a
cando_opcode_fmt op_throw = opfmt_a
cando_opcode_fmt op_reraise = opfmt_none
cando_opcode_fmt op_async = opfmt_none
cando_opcode_fmt op_await = opfmt_none
cando_opcode_fmt op_yield = opfmt_none
cando_opcode_fmt op_thread = opfmt_none
cando_opcode_fmt op_new_class = opfmt_a
cando_opcode_fmt op_bind_method = opfmt_a
cando_opcode_fmt op_inherit = opfmt_none
cando_opcode_fmt op_mask_pass = opfmt_none
cando_opcode_fmt op_mask_skip = opfmt_none
cando_opcode_fmt op_mask_apply = opfmt_a_b
cando_opcode_fmt op_spread_ret = opfmt_none
cando_opcode_fmt op_array_spread = opfmt_none
cando_opcode_fmt op_truncate_ret = opfmt_none
cando_opcode_fmt op_eq_spread = opfmt_none
cando_opcode_fmt op_neq_spread = opfmt_none
cando_opcode_fmt op_lt_spread = opfmt_none
cando_opcode_fmt op_gt_spread = opfmt_none
cando_opcode_fmt op_leq_spread = opfmt_none
cando_opcode_fmt op_geq_spread = opfmt_none
cando_opcode_fmt op_nop = opfmt_none
cando_opcode_fmt op_halt = opfmt_none

unfoldable pub cando_opcode_size : CandoOpcode → ℕ
cando_opcode_size op = elim (cando_opcode_fmt op) [ opfmt_none ↦ 1 | opfmt_a ↦ 3 | opfmt_a_b ↦ 5 ]
