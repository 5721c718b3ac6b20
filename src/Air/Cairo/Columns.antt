-- ===== src/Air/Cairo/Columns.antt =====
-- air/cairo_air/air.rs: the numbers of the constraints, and of the columns of a trace row.
use lambdaworks_cairo_prover.Prelude.{ℕ}

abbrev pub inst : ℕ
inst = 16

abbrev pub dst_addr : ℕ
dst_addr = 17

abbrev pub op0_addr : ℕ
op0_addr = 18

abbrev pub op1_addr : ℕ
op1_addr = 19

abbrev pub next_ap : ℕ
next_ap = 20

abbrev pub next_fp : ℕ
next_fp = 21

abbrev pub next_pc_1 : ℕ
next_pc_1 = 22

abbrev pub next_pc_2 : ℕ
next_pc_2 = 23

abbrev pub t0 : ℕ
t0 = 24

abbrev pub t1 : ℕ
t1 = 25

abbrev pub mul_1 : ℕ
mul_1 = 26

abbrev pub mul_2 : ℕ
mul_2 = 27

abbrev pub call_1 : ℕ
call_1 = 28

abbrev pub call_2 : ℕ
call_2 = 29

abbrev pub assert_eq : ℕ
assert_eq = 30

abbrev pub memory_increasing_0 : ℕ
memory_increasing_0 = 31

abbrev pub memory_increasing_1 : ℕ
memory_increasing_1 = 32

abbrev pub memory_increasing_2 : ℕ
memory_increasing_2 = 33

abbrev pub memory_increasing_3 : ℕ
memory_increasing_3 = 34

abbrev pub memory_consistency_0 : ℕ
memory_consistency_0 = 35

abbrev pub memory_consistency_1 : ℕ
memory_consistency_1 = 36

abbrev pub memory_consistency_2 : ℕ
memory_consistency_2 = 37

abbrev pub memory_consistency_3 : ℕ
memory_consistency_3 = 38

abbrev pub permutation_argument_0 : ℕ
permutation_argument_0 = 39

abbrev pub permutation_argument_1 : ℕ
permutation_argument_1 = 40

abbrev pub permutation_argument_2 : ℕ
permutation_argument_2 = 41

abbrev pub permutation_argument_3 : ℕ
permutation_argument_3 = 42

abbrev pub range_check_increasing_0 : ℕ
range_check_increasing_0 = 43

abbrev pub range_check_increasing_1 : ℕ
range_check_increasing_1 = 44

abbrev pub range_check_increasing_2 : ℕ
range_check_increasing_2 = 45

abbrev pub range_check_0 : ℕ
range_check_0 = 46

abbrev pub range_check_1 : ℕ
range_check_1 = 47

abbrev pub range_check_2 : ℕ
range_check_2 = 48

abbrev pub f_dst_fp : ℕ
f_dst_fp = 0

abbrev pub f_op_0_fp : ℕ
f_op_0_fp = 1

abbrev pub f_op_1_val : ℕ
f_op_1_val = 2

abbrev pub f_op_1_fp : ℕ
f_op_1_fp = 3

abbrev pub f_op_1_ap : ℕ
f_op_1_ap = 4

abbrev pub f_res_add : ℕ
f_res_add = 5

abbrev pub f_res_mul : ℕ
f_res_mul = 6

abbrev pub f_pc_abs : ℕ
f_pc_abs = 7

abbrev pub f_pc_rel : ℕ
f_pc_rel = 8

abbrev pub f_pc_jnz : ℕ
f_pc_jnz = 9

abbrev pub f_ap_add : ℕ
f_ap_add = 10

abbrev pub f_ap_one : ℕ
f_ap_one = 11

abbrev pub f_opc_call : ℕ
f_opc_call = 12

abbrev pub f_opc_ret : ℕ
f_opc_ret = 13

abbrev pub f_opc_aeq : ℕ
f_opc_aeq = 14

abbrev pub frame_res : ℕ
frame_res = 16

abbrev pub frame_ap : ℕ
frame_ap = 17

abbrev pub frame_fp : ℕ
frame_fp = 18

abbrev pub frame_pc : ℕ
frame_pc = 19

abbrev pub frame_dst_addr : ℕ
frame_dst_addr = 20

abbrev pub frame_op0_addr : ℕ
frame_op0_addr = 21

abbrev pub frame_op1_addr : ℕ
frame_op1_addr = 22

abbrev pub frame_inst : ℕ
frame_inst = 23

abbrev pub frame_dst : ℕ
frame_dst = 24

abbrev pub frame_op0 : ℕ
frame_op0 = 25

abbrev pub frame_op1 : ℕ
frame_op1 = 26

abbrev pub off_dst : ℕ
off_dst = 27

abbrev pub off_op0 : ℕ
off_op0 = 28

abbrev pub off_op1 : ℕ
off_op1 = 29

abbrev pub frame_t0 : ℕ
frame_t0 = 30

abbrev pub frame_t1 : ℕ
frame_t1 = 31

abbrev pub frame_mul : ℕ
frame_mul = 32

abbrev pub frame_selector : ℕ
frame_selector = 33

abbrev pub range_check_col_1 : ℕ
range_check_col_1 = 34

abbrev pub range_check_col_2 : ℕ
range_check_col_2 = 35

abbrev pub range_check_col_3 : ℕ
range_check_col_3 = 36

abbrev pub memory_addr_sorted_0 : ℕ
memory_addr_sorted_0 = 37

abbrev pub memory_addr_sorted_1 : ℕ
memory_addr_sorted_1 = 38

abbrev pub memory_addr_sorted_2 : ℕ
memory_addr_sorted_2 = 39

abbrev pub memory_addr_sorted_3 : ℕ
memory_addr_sorted_3 = 40

abbrev pub memory_values_sorted_0 : ℕ
memory_values_sorted_0 = 41

abbrev pub memory_values_sorted_1 : ℕ
memory_values_sorted_1 = 42

abbrev pub memory_values_sorted_2 : ℕ
memory_values_sorted_2 = 43

abbrev pub memory_values_sorted_3 : ℕ
memory_values_sorted_3 = 44

abbrev pub permutation_argument_col_0 : ℕ
permutation_argument_col_0 = 45

abbrev pub permutation_argument_col_1 : ℕ
permutation_argument_col_1 = 46

abbrev pub permutation_argument_col_2 : ℕ
permutation_argument_col_2 = 47

abbrev pub permutation_argument_col_3 : ℕ
permutation_argument_col_3 = 48

abbrev pub permutation_argument_range_check_col_1 : ℕ
permutation_argument_range_check_col_1 = 49

abbrev pub permutation_argument_range_check_col_2 : ℕ
permutation_argument_range_check_col_2 = 50

abbrev pub permutation_argument_range_check_col_3 : ℕ
permutation_argument_range_check_col_3 = 51

abbrev pub mem_p_trace_offset : ℕ
mem_p_trace_offset = 17

abbrev pub mem_a_trace_offset : ℕ
mem_a_trace_offset = 19

-- `num_transition_constraints` of `CairoAIR::new`.
abbrev pub num_transition_constraints : ℕ
num_transition_constraints = 49
