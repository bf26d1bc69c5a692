-- ===== src/Lib.antt =====
-- A verification library for the C programs of the Gandiva repository: the CoreMark benchmark that
-- is run on the core, the Dhrystone benchmark, the board support of the Embench programs, and the
-- board support and the application of the real-time kernel.
--
-- The parts of the program and the files that model them:
--   Coremark/Crc        coremark/src/core_util.c: crcu8, crcu16, crcu32, crc16.
--   Coremark/State      coremark/src/core_state.c: core_state_transition (State.antt: dispatch and
--                       count are the switch at one symbol, transition_loop the loop over symbols),
--                       core_bench_state (scan_all, corrupt, crc_counts), and core_init_state
--                       (State/Input.antt).
--   Coremark/Matrix     coremark/src/core_matrix.c: each function by its name; core_init_matrix is
--                       in Matrix/Init.antt.
--   Coremark/Calc       calc_func of coremark/src/core_list_join.c, which runs the two benchmarks
--                       above for an item of the list.
--   Coremark/List       the rest of core_list_join.c: the heap and the relinking operations
--                       (List.antt), core_list_mergesort (List/Sort.antt), cmp_complex and cmp_idx
--                       (List/Compare.antt), core_list_init (List/Init.antt) and core_bench_list
--                       (List/Bench.antt). The sort has its comparison as a parameter, and its proofs
--                       in List/Sort rest on the interface IsOrdering of Sort/Output.antt, which the
--                       comparisons fill in List/Compare/Complex and List/Compare/Regen.
--   Coremark/Main       iterate of coremark/src/core_main.c, which calls core_bench_list, with the list
--                       benchmark from core_list_init on in Main/Iterations.antt; the seeds,
--                       the cut of the memory block and the init functions (Main/Setup.antt); the
--                       number of iterations and the check of the CRCs (Main/Report.antt); and the calls of
--                       ee_printf that report them (Main/Report/Print.antt). main composes them in
--                       Main/Whole.antt.
--   Coremark/Printf     coremark/src/barebones/ee_printf.c: strnlen, skip_atoi, number, eaddr, iaddr
--                       (Printf.antt), ee_vsprintf and ee_printf (Printf/Format.antt).
--   Dhrystone           dhrystone/src/dhry.h: the types, and the globals of dhry_1.c. dhry_2.c is in
--                       Dhrystone/Procs, dhry_1.c in Dhrystone/Runs and, for the score, in
--                       Dhrystone/Score, and the formatter of dhry_port.c in Dhrystone/Port.
--   Embench             embench/config/gandiva/boardsupport.c: the triggers of a measurement, _exit,
--                       which is exit here, and initialise_board.
--   Rtos/Libc           rtos/bsp/libc_stubs.c: memcpy, memset, memmove.
--   Rtos/Console        rtos/bsp/bsp.c: uart_puts, uart_putdec, uart_puthex.
--   Rtos/Halt           rtos/bsp/bsp.c: sim_pass, sim_fail, vAssertCalled and the two handlers.
--   Rtos/Kernel         what rtos/app/main.c uses of the real-time kernel, as an interface.
--   Rtos/App            rtos/app/main.c: producer_step, consumer_step and worker_step are the tasks,
--                       tick_step a timer interrupt, Step any of them (App.antt).
--   Base                shared names, lists over the native numbers, fixed-width words, the outcome
--                       Run of code that walks memory, bit laws and counted loops.
--   Tests               the theorems at concrete inputs.
--
-- Integers of w bits are their bit patterns below 2^w, with the wrap written out; a signed value is
-- its pattern, too, and sext16, neg16 and lt_s32 read the sign. A pointer into a text is the list
-- of the bytes from it on, and a block of memory a list of cells; an access outside it is `fault`.
-- The list benchmark has a heap: the fields of list_head and list_data by address, with 0 as NULL,
-- whose access faults. The two kinds of items have stores of their own, as the code never reads
-- one as the other, and addresses are bytes for pointers of 32 bits.
--
-- Loops whose end is not counted run on fuel and end in `out_of_fuel` without it. core_bench_state
-- gives the scans one round for a byte and one more, since each scan takes a byte at least, and the
-- passes of corruption one for a byte of the size and one more, since each step is positive. The
-- search for the matrix dimension has a round for each number up to the size. The functions of the
-- list take their fuel as an argument; one more than the number of items is enough for a walk, and
-- as many as items for the sort, where a pass over the runs gets one more. tmp
-- and buf of the printing functions are bounded by the bytes that they have.
--
-- The kernel of rtos/app is not in the repository: its queue, its semaphore and pdMS_TO_TICKS
-- are a parameter, with the documented effects of a call as laws. A task takes one step up to
-- its next call of the kernel, or prints one line; a call that blocks is no step; and any task
-- may take the next step, so that what holds of every run holds for every schedule. A timer
-- interrupt may come between any two steps, and a delay ends after the five of them that its 5
-- ms are at the configured rate.
--
-- In Dhrystone a pointer to a record is null or one of the two records, an array a list of its cells,
-- and a pointer to an int a value that is returned. The loops of a run have three rounds at most,
-- counting the last test, and a formatter has one for a piece of its format. An argument of the
-- wrong kind is `fault`.
--
-- In Embench the two words of the cycle counter are values from the hardware, one for each read, and
-- the wait of initialise_board has its rounds as fuel.
--
-- Not modelled: CoreMark's port (clock, UART and memory setup), the
-- floating-point conversions of ee_printf.c, which the build leaves out, what Dhrystone prints, and
-- everything that is not C: the processor core, its testbench, the assembly programs and the tools.
-- The Embench benchmarks themselves are not in the repository.
pub mod Base
pub mod Coremark
pub mod Dhrystone
pub mod Rtos
pub mod Embench
pub mod Tests
