-- ===== src/Lib.antt =====
-- A model of the C code of zr-soc, a system on chip around a RISC-V core, and theorems on it: the CoreMark
-- benchmark under sw/coremark, which the FPGA port and the simulation run, and the driver of the simulation
-- under verilator.
--
-- The benchmark runs three programs on a block of memory and checks them by one checksum.
--   Crc          the checksum, sw/coremark/core_util.c: crcu8, crcu16, crcu32 and crc16. Crc/Reference has
--                the shift register of CRC-16/ARC that the code is compared with.
--   State        the state machine benchmark, sw/coremark/core_state.c: State has the scanner
--                core_state_transition, State/Bench core_bench_state and core_init_state. State/Grammar has
--                the number formats without the machine.
--   Matrix       the matrix benchmark, sw/coremark/core_matrix.c: Matrix has the passes and matrix_test,
--                Matrix/Init has core_init_matrix.
--   LinkedList   the linked list benchmark, sw/coremark/core_list_join.c: LinkedList has search, reversal,
--                removal and insertion, LinkedList/Sort the merge sort, LinkedList/Calc the comparisons,
--                LinkedList/Init core_list_init and LinkedList/Bench core_bench_list. LinkedList/Store has
--                the memory: list cells, data cells and the structure core_results.
--   Seeds        parseval, get_seed_args and get_seed_32 of sw/coremark/core_util.c.
--   Main         sw/coremark/core_main.c for one context: iterate, the default seeds, the division of the
--                memory, and the count of errors, with check_data_types of sw/coremark/core_util.c.
--                Main/Setup has the calls of the initialisations, Main/Timing
--                the search for the number of iterations and the timed run.
--   Timer        the timer of sw/coremark/barebone-arty-a7/core_portme.c, with the counter as an argument.
--   Rbb          the remote bitbang server, verilator/rbb_server.cpp: its operations, and the interface
--                rbb_backend of verilator/rbb_server.h as a record. Rbb/Protocol has the protocol without
--                the server.
--   Sim          verilator/sim.cpp: Sim has the backend verilator_backend, Sim/Clock the thread sys_thrd, and
--                Sim/Threads the steps of the three threads in any order.
--   Options      OptionsParser and the options of main, verilator/sim.cpp.
--   Printf       the formatted printing of sw/coremark/barebone-arty-a7/ee_printf.c: Printf has the conversion
--                of numbers and addresses, Printf/Format the parts of a conversion specification, and
--                Printf/Interpreter the loop over the format and ee_printf.
--   Common       names and lemmas that they share: the tests of C, arrays, bit operations, outcomes, loops.
--
-- The list benchmark calls the other two: calc_func runs core_bench_state or core_bench_matrix on the block
-- or the matrices of core_results, folds the result into the checksum, and caches it in the item. The memory
-- of the list cells and the blocks of the other two benchmarks do not overlap, as main lays them out.
--
-- The simulation driver runs two threads over one testbench. The server reads commands from a socket and
-- passes them to the backend, which drives the JTAG inputs; the other thread drives the clock. Both evaluate
-- the testbench in critical sections, which are the steps of the interleaving. The testbench is generated code
-- and an argument: a state, its evaluation at the inputs, and its outputs. The results of system calls are
-- arguments too; what the kernel does with descriptors is told by the calls of `close`, which are recorded, and of
-- `epoll_create1`.
-- That `epoll` reports the socket, or the pipe after it has been written to, is what a step is allowed to see.
--
-- Integers. An integer of w bits is its bit pattern, a number below 2 ^ w, and the wrap is written out. A
-- signed value is a pattern too: sext16 widens it and slt32 compares it. Overflow of signed arithmetic, which
-- C leaves undefined, wraps in the model, as the compilers of the ports make it; so does a conversion to a
-- narrower signed type. Pointers have 32 bits.
--
-- Memory. A read or a write outside of an array, at NULL or where there is no cell is the outcome `fault` of
-- `Run`; theorems that say that the code returns exclude it.
--
-- Loops. Counted loops have their count. A loop that follows a list, or that searches, is given a number of
-- rounds, and ends with the outcome `out_of_fuel` when they are used up. dim_loop gets the size of the block
-- and one, merge_loop the length of two runs and one, count_tokens the length of the block and one, since each
-- token moves on by a byte at least, and corrupt the size of the block and one, since each step does
-- where it is positive; for the operations on lists one round more than there are cells is enough,
-- as their theorems ask.
-- `system_loop`, the loop of sys_thrd, takes a number of rounds, and its theorem says how many are enough;
-- `serve`, the loop of jtag_thrd, runs over the rounds that the client gives it.
-- `convert` has a round for each of the 32 bits, and `ee_vsprintf` one for each character of the format.
-- `search_iterations` has nine rounds at least in its theorem, for eight measurements of ten times the iterations
-- each.
-- `core_list_mergesort`, `core_list_init` and `core_bench_list` take the number of rounds as an argument.
--
-- Not modelled: CORE_DEBUG output, which is not compiled; the report of core_main.c; the other ports; the
-- floating point conversion, which needs doubles; in verilator/sim.cpp errors of pipe and pthread_create,
-- messages and deallocation; the virtual memory environment of the ISA tests, which is a copy of another
-- project's; and the hardware description, which is not C.
pub mod Common
pub mod Crc
pub mod State
pub mod Matrix
pub mod LinkedList
pub mod Seeds
pub mod Main
pub mod Timer
pub mod Rbb
pub mod Sim
pub mod Options
pub mod Printf
