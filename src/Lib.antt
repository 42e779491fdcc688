-- ===== src/Lib.antt =====
-- A verification library for N64ModernRuntime, the runtime of statically recompiled N64 games.
--
-- The program. `ultramodern` re-implements the OS of the console: threads that run one at a time
-- (ultramodern/src/threadqueue.cpp, scheduling.cpp, threads.cpp) and message queues
-- (ultramodern/src/mesgqueue.cpp). `librecomp` re-implements its devices: the parallel interface
-- with cartridge, SRAM and FlashRAM (librecomp/src/pi.cpp, flash.cpp), the EEPROM (eep.cpp), the
-- joybus (si_joybus.cpp) and the Transfer Pak behind it (gbcart.cpp). The threads' queues are used
-- by the scheduler and by the message queues; devices report completion by a message, and so do the
-- timers (ultramodern/src/timer.cpp). Code of the game that was not recompiled is run by an
-- interpreter of MIPS instructions (mips_interp.cpp), which calls recompiled functions where it can.
-- Mods extend a game; mods.cpp decides which of them are enabled and in which order.
--
-- The files:
--   Base           names of the libraries passed on, Boolean tests, lists, integers, machine words,
--                  and the interface of the guest's memory (Base/Guest)
--   EventRing      the diagnostic rings of threadqueue.cpp and mesgqueue.cpp
--   ThreadQueue    threadqueue.cpp: thread_queue_insert, _pop, _remove, _empty, _peek, the event
--                  ring and the table of threads (ThreadQueue/Log)
--   Scheduling     scheduling.cpp and threads.cpp: schedule_running_thread, swap_to_thread,
--                  check_running_queue, run_next_thread_and_wait, osStartThread, osCreateThread,
--                  osStopThread, osDestroyThread, osSetThreadPri, osGetThreadPri, osGetThreadId
--   MesgQueue      mesgqueue.cpp: osCreateMesgQueue, do_send, do_recv; MesgQueue/Log its rings and
--                  tables, MesgQueue/External the host's messages and osSendMesg, osJamMesg,
--                  osRecvMesg
--   GbCart         gbcart.cpp: Cartridge; GbCart/Port its Port, GbCart/Blocks the calls on blocks
--   Joybus         si_joybus.cpp: data_crc and run_joybus
--   Save           pi.cpp: the save buffer and its accessors
--   Pi             pi.cpp: do_dma, do_rom_read, do_rom_pio, osEPiReadIo; Pi/Registers the FlashRAM
--                  commands and osEPiWriteIo
--   Flash          flash.cpp: the osFlash calls
--   Eeprom         eep.cpp: the osEeprom calls
--   MathRoutines   math_routines.cpp: the unsigned 64-bit helpers
--   Timer          timer.cpp: the clock, osSetTimer, osStopTimer and timer_thread
--   MipsInterp     mips_interp.cpp: exec_noncontrol (MipsInterp/Exec, Alu, Cop1), a round of the loop
--                  of interpret (MipsInterp/Control), the loop and its calls (MipsInterp/Run)
--   Mods           mods.cpp: ModContext::enable_mod and the traversal of dependencies; Mods/Order
--                  set_mod_index; Mods/Dependencies is_dependency_met, check_dependencies and the
--                  comparison of versions (game.hpp); Mods/Events the events (mod_events.cpp)
--   Rsp            rsp.cpp: apply_sp_status_write
--   Overlays       overlays.cpp: decode_jal_target, translate_link_time_to_runtime; Overlays/Aliases
--                  func_map, Overlays/PcIndex the index of host addresses, Overlays/Loader
--                  load_overlay and the unloading of a section, Overlays/Dma load_overlays and
--                  unload_overlays, Overlays/Trampolines the jump slots of fragments,
--                  Overlays/Fragments register_runtime_fragment, Overlays/Resolve the resolution
--                  of fragment addresses, Overlays/Functions the functions by section
--   Rom            recomp.cpp: select_rom, check_rom_start and byteswap_data
--   Tests          the theorems at concrete inputs
--
-- How code becomes definitions. A component's variables are a record, a function that changes them
-- returns the new record, and an early return is a branch. A switch between threads is a function
-- on the scheduler's state: what runs afterwards is the thread that was woken, and a caller that
-- waits inside of a call goes on later with a function of its own (send_wait, recv_wait). Guest
-- structures are stores by address, so that structures that overlap in memory are not modelled.
-- Numbers are natural numbers with the wrap-around of their types written out; members of type s32
-- are integers.
--
-- Parameters. The accessors of guest memory come from the recompiler's recomp.h, which is no part
-- of the repository: they are the interface GuestMemory, with the laws of a store of bytes. Clocks,
-- the current thread of the Transfer Pak's ring, the files, and which of them can be written are
-- arguments. The interpreter of MIPS instructions takes recomp.h and the host's floats as the
-- interface Platform, and the map of recompiled functions as the interface Runtime.
--
-- Bounds and fuel. The walks along a thread queue are bounded by the code's own guard of 0x40000
-- threads. The joybus parser gets 63 steps: each one moves past a byte of the 63 that can start a
-- command. The drain of the external queue goes through the list of its messages, since it ends
-- when it puts one back. The code that the interpreter of MIPS instructions runs need not stop: its
-- loop spends a unit of fuel on each round. The traversal of a mod's dependencies gets as many units
-- as the dependencies of all mods and two: it puts each id on its stack at most once. The scan of the
-- order of mods gets a unit for each entry and three. The rounds that unload overlapping sections are
-- one more than the loaded sections: each round but the last unloads one.
--
-- Not modelled: the N64_COSIM build, debug output, host threads and clocks, the saving thread and
-- its files, delayed sends, the capture and compilation of fragments, the loading and configuration of mods, the
-- RSP's tasks and vector unit, graphics, audio and input. The timer thread's set is modelled as
-- ordered: a timer that is set again while it is pending breaks that order, and what a std::set then
-- does is not defined.
pub mod Base
pub mod EventRing
pub mod ThreadQueue
pub mod Scheduling
pub mod MesgQueue
pub mod GbCart
pub mod Joybus
pub mod Save
pub mod Pi
pub mod Flash
pub mod Eeprom
pub mod MathRoutines
pub mod MipsInterp
pub mod Timer
pub mod Mods
pub mod Rom
pub mod Rsp
pub mod Overlays
pub mod Tests
