-- ===== src/Lib.antt =====
-- Armator, a simulator of the ARM instruction set: a verification of its processor and its GDB server.
--
-- The program. A simulated processor (arm_core.c) holds a register file (registers.c), a byte
-- memory (memory.c) and a cycle counter. arm_instruction.c executes one step: it fetches the word
-- at the pc, tests its condition field (arm_conditions.c) and calls, by bits 27 to 25, the
-- data-processing instructions (arm_data_processing.c), the loads and stores (arm_load_store.c) or
-- the branches (arm_branch_other.c); a result other than 0 goes to arm_exception.c. A GDB server
-- (gdb_protocol.c) runs the processor and reads and writes its state by packets, and a second thread
-- (arm_simulator.c) raises exceptions on it; both hold a lock while they do. debug.c keeps the names
-- of the files to print messages for, and arm_constants.c the names that send_irq.c chooses an
-- exception by.
--
-- The files.
--   Base              numbers, tests, words of w bits, bits of a number, runs that may fault, runs
--                     over a state (State) and what they keep (Yields)
--   Util              util.c and util.h
--   Memory            memory.c; children for round trips (Word, Half), guards (Bounds), writes
--                     (Frame) and reads (Reads)
--   Registers         registers.c
--   Core              arm_core.c over the state monad of Core.State; Core.Valid has the
--                     well-formed states and the postconditions of runs, Core.Rules, Core.Access
--                     and Core.Values what the accessors yield
--   Conditions        arm_conditions.c; Conditions.Meaning reads arm_constants.h
--   Branch            arm_branch_other.c
--   Exception         arm_exception.c and arm_create
--   DataProcessing    arm_data_processing.c: Alu, Shifter and the two decoders
--   LoadStore         arm_load_store.c: Single, Store, Block and the dispatchers; Blocks has what
--                     ldm loads, Places and Multiple where stm stores
--   Instruction       arm_instruction.c
--   Breakpoints       the breakpoint table of gdb_protocol.c: Find, Insert, Delete
--   Text              the text functions of the C library that are called; Text.Hex reads what is
--                     written in hexadecimal, Text.Order is the order of strcmp
--   Gdb               gdb_protocol.c over the state of Gdb.State: Send (packets to the debugger),
--                     Scan (arguments), Execute, Register, Contents and Requests (the handlers) and
--                     the analysis of a packet; the other children are for what they prove: Buffer
--                     and Packet (sending), Received (checksums), Reason and Stops (cont), Dump,
--                     Answer and Restore (the registers), Pairs, Fill and Show (the memory), Points
--                     (the breakpoints)
--   Scanner           scanner.c: the errors, the actions and the loop over the stream; Tables and
--                     Match find a token, Rules is what scanner.l asks for; the other children are
--                     for the tables (Classes, Body, First, Longest), whole streams (Stream), bytes
--                     that are no packet (Errors) and packets (Frames, Requests)
--   Server            the two threads of arm_simulator.c as sequences of steps; Server.Invariant
--                     takes from Gdb.Kept, Keeps, Serves and Dispatch what each request keeps, and
--                     Server.Led and Scans make steps of the runs of the scanner
--   Simulator         main of arm_simulator.c: Start (the processor), Flags and Options (the trace)
--   Debug             the array of file names of debug.c: Search, Loops, Insert
--   Names             the tables of arm_constants.c, and the choice of an exception in send_irq.c
--   Trace             trace.c: the flags and the stack of places, Nested calls of trace_location.h,
--                     Print writes the lines; Places (an access) and State are for what is written
--   Examples          a concrete machine and the theorems applied to it
--
-- The model. A C function on the processor is a run of type M A: it takes the state Core and
-- returns a value with the new state, or `none` where the code accesses memory outside an
-- allocated object. Functions and fields keep the names of the source; the operations of
-- arm_data_processing.c are in lower case. A uint32_t is a natural number below 2 ^ 32, with every
-- wrap-around written out, and an int is its two's complement pattern, so -1 is 0xFFFFFFFF. Where
-- the C standard leaves a result open (a 32-bit shift by 32 or more, an uninitialised local) the
-- model takes it from the parameter Machine, of which only the range is known; a left shift of a
-- signed value is taken to wrap. The simulator is built big-endian, as Makefile.am says.
--
-- Bounds and fuel. The loops of the source have a constant or computed number of rounds, and the
-- model recurs on the rounds left. The binary search of the breakpoints runs on fuel, one more than
-- the number of breakpoints; every round shrinks the interval, so it is enough. The loop of cont
-- need not end; it runs on fuel, a run whose fuel ends is told apart by its value, and the fuel that
-- is enough is the number of steps to the first stop. The search of the file names has one
-- round more of fuel than names, and that of send_irq.c as many as the table of exceptions has names.
-- The scanner takes a byte of the stream in every round, so its size is enough; a default of the
-- tables is followed at most twice.
--
-- The debugger. A connection is the state Gdb: the processor, the packet buffer of 4096 characters
-- and the table of breakpoints, with the bytes that Rio_writen was given and the shutdown as events.
-- A request is the list of its bytes, and a pointer into it is a tail of the list; a failed
-- assertion, a write past the buffer and a read past the request are `none`. What the code asks of
-- printf, scanf, atoi, index and the comparisons of strings is written out in Text. The scanner
-- takes the bytes that arrive until the connection is closed as a list, gives every packet of the form
-- $...#hh to gdb_packet_analysis with its length, and collects the bytes that belong to none.
--
-- Not modelled. Allocation succeeds and frees are left out. The accessors of
-- arm_core.c do not call the trace, which is modelled by itself, in the format without
-- ARM_TRACE_FORMAT. __debug_raw_binary of debug.c is left out. The sockets of arm_simulator.c and
-- send_irq.c and the messages of usage are input and output. getopt_long and fopen are what the
-- arguments of main stand for: the options with their optarg, which may be NULL, and the names of files
-- that can be opened. The lock is what makes each request and each interrupt one step. Of
-- scanner.c, which flex generates, the filling of its buffer and its accessors are left out, and
-- csapp.c is a library of others.
pub mod Base
pub mod Text
pub mod Util
pub mod Memory
pub mod Registers
pub mod Core
pub mod Conditions
pub mod Branch
pub mod Exception
pub mod DataProcessing
pub mod LoadStore
pub mod Instruction
pub mod Gdb
pub mod Scanner
pub mod Server
pub mod Simulator
pub mod Debug
pub mod Names
pub mod Trace
pub mod Examples
pub mod Breakpoints
