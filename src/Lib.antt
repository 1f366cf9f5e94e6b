-- ===== src/Lib.antt =====
-- RD_SPE_TOOL: a profiler that samples memory instructions with ARM SPE and measures the reuse
-- distance of the hottest ones.
--
-- The program has two stages. In the first (src/monitor.cc) a sampler thread drains the AUX buffers
-- of perf, decodes SPE packets into samples of one instruction each, writes these to a file, files
-- them under the module and the offset of their program counter, and exports the best of them as
-- hotspots. In the second (src/targeted_rd.cc) a later run reads that export, decodes the operands
-- of each hotspot, finds its address again in the maps of the new process, and drives a kernel
-- module (kernel/rd_wpctl.c) that watches the addresses and counts distances in a histogram.
--
-- The files and the code they model:
--   Base: helpers: lists, texts as bytes, 64-bit words, bits, signed integers, sorting, maps as
--     association lists, the numbers that an operating system hands out (`Handles`), and all that the code asks of a `double`.
--   Spe: packet headers, addresses and event names (src/monitor.cc, include/monitor.hh).
--   Monitor/State, Maps, Hotspot, Flush, Decode: the members of the monitor, its module maps, its
--     statistics (`record_hotspot_sample`), the pending sample (`flush_pending_spe_sample_locked`)
--     and the packet loop of `process_samples_locked` for one AUX record.
--   Monitor/Ring: `process_samples_locked` around that loop, over the records of the ring buffer.
--   Monitor/Threads: the perf descriptors, mappings and sampler slots of the watched threads:
--     `register_thread_locked` and `open_thread_locked` with every exception, `close_thread_locked`,
--     `unregister_thread_locked`, the parts of `start`, `stop` and the destructor that reach them.
--   Monitor/Sampler: `run_sampler_thread` with the commands that reach it through `_event_fd`.
--   Monitor/Export: the lines that `write_hotspot_manifest` writes.
--   Monitor/Counters: the counter totals of `read_counters` over live and retired threads.
--   Select: `collect_hotspots_for_thread`, with the Pareto front and the three sorts.
--   Targeted/Bucket: the histogram's buckets, in the profiler and in the module.
--   Targeted/Window: `kernel_start` and `kernel_stop` over the window commands of the module. An
--     operation returns or throws; what it changed before stays. Each step of a run has its own
--     function that says which commands the device fails.
--   Targeted/Threads: `register_thread_locked` and `unregister_thread_locked` with the CPUs.
--   Targeted/Text, Operand: the text helpers and `decode_from_asm_operands`, with the module's
--     `rd_validate_target`.
--   Targeted/Manifest: `load_targets`.
--   Kernel/State: the structures of kernel/rd_wpctl.c and include/uapi/rd_wpctl_ioctl.h. The arrays
--     of a thread with one element per slot are one list of slots.
--   Kernel/Address, Callchain, Tables, Slots: `rd_compute_effective_address`,
--     `rd_capture_callchain`, the searched tables, and `rd_pick_wp_slot`.
--   Kernel/Hits: `rd_handle_bp_hit` and `rd_handle_wp_hit`. A handler is one step: a thread under
--     measurement is bound to one CPU. What the kernel answers to it is an argument (`Hit`).
--   Kernel/Lifecycle: setting up, resetting and detaching a thread.
--   Kernel/Events: the perf events of a thread, from `rd_thread_setup_events` to
--     `rd_thread_free_live`.
--   Kernel/Live: the references on a thread's events and arrays. The two probes and the owner that
--     runs `rd_thread_detach_live` are interleaved, one access to shared memory at a time.
--   Kernel/Session: `rd_wpctl_ioctl` with every request, and `Reached`, the sessions that requests
--     and hits can lead to. What the kernel knows and answers is an argument (`Kernel`).
--   Starter: `parse_bufsize` and `lib_init` of src/starter.cc, from the environment to the
--     arguments of the profiler's constructor.
--   Tests: concrete inputs.
--
-- Numbers: a `uint64_t` is a natural number with its wrap written out (`add64`, `sub64`, `to_u32`).
-- An `std::unordered_map` is an association list. A `double` is any type with a quotient and two
-- comparisons; the laws that the comparisons obey are a hypothesis where a theorem needs them.
--
-- Bounds and fuel: an AUX record of n bytes holds at most n packets, so the packet loop has fuel n
-- + 1; a ring with n bytes to read holds at most n records, so the record loop has fuel n + 1;
-- `parse_bufsize` shifts a 32-bit integer, so its loop has fuel 32; the search for a CPU counts
-- the CPUs down. The walk over the user's frames has fuel 2^64, since a frame pointer grows with
-- each round and has 64 bits; the copy of the stack takes at most 32 chunks of 256 bytes, and has
-- fuel 33. All other loops follow their list.
--
-- Parameters: `realpath`, `atoi`, `fls64`, the numbers of new descriptors, mappings and perf
-- events (not in use before, by hypothesis), `hw_breakpoint_init`, the answers of `mmap`,
-- `sched_setaffinity` and the ioctl calls, the disassembly by objdump and the lines of the
-- process's maps are arguments.
--
-- Not modelled: files and their text but for the manifest's lines, the registration of the
-- module's device and probes, the contents of the DWARF snapshots, reorderings of memory accesses,
-- and the scripts that process the results. A slot id is an unbounded number, where the source
-- counts in an `int`. A drain or a read of the counters that throws while a thread is closed is left
-- out, and so is the seed's program counter in a stored DWARF event.
pub mod Base
pub mod Spe
pub mod Monitor
pub mod Select
pub mod Kernel
pub mod Targeted
pub mod Starter
pub mod Tests
