-- ===== src/Lib.antt =====
-- nanokrnl: a verification library for this repository: an NT-compatible kernel in Rust
-- (kernel/src) and the x86-64 emulator that runs it (emu/src).
--
-- The kernel is a set of subsystems over shared state that locks guard; the emulator is a
-- processor that reads memory through the guest's page tables, with the devices that interrupt it.
-- This library models the parts that carry its own logic, each as functions on an explicit state:
-- - Rtl/Bitmap.antt is kernel/src/rtl/bitmap.rs: words of 64 bits, `set_bits`, `clear_bits`,
--   `find_clear_bits_and_set` and its loop. The children read the words as a set of bit numbers.
-- - Rtl/Strings.antt is kernel/src/rtl/string.rs: counted strings and `eq_ignore_ascii_case`.
-- - Mm/Phys.antt is kernel/src/mm/phys.rs: the frame database over that bitmap, `try_alloc` and
--   `mm_free_contiguous_pages`, with physical memory as a function from addresses to bytes. The
--   pager is the record `Pager`.
-- - Mm/Vad.antt and Mm/Vad/Paging.antt are kernel/src/mm/vad.rs: the committed ranges of each
--   address space, their allocation, release, protection and demand commit. What the operations
--   ask of page tables, frames and the pagefile is the record `Pages`, whose operations return:
--   the panics of kernel/src/mm/virt.rs, when it has no frame for a table, are outside the model.
-- - Ob/Object.antt is kernel/src/ob/mod.rs: headers by body address, the reference count and the
--   hooks of a type. Ob/Handle.antt is kernel/src/ob/handle.rs: the handle tables of all address
--   spaces. Ob/Handle/Counts.antt says when the two agree: each object counts the references held
--   elsewhere and one for each copy of a handle.
-- - Ke/Ready.antt is the part of kernel/src/ke/scheduler.rs that keeps the ready banks:
--   `ready_thread_locked`, `best_priority_in`, `pop_at`, `select_next_locked` with its stealing,
--   `decay_boost_locked`, and in Ke/Ready/Boost.antt the starvation relief of
--   `boost_starved_locked`. A bank is valid when its summary bits and its count agree with its 32
--   queues.
-- - Ke/Wait.antt is the part of kernel/src/ke/scheduler.rs that waits: dispatcher objects, wait
--   blocks, `evaluate_wait`, `apply_consume`, `unlink_thread_waits` and the loop of
--   `ki_wait_test`, on the banks of Ke/Ready.antt. Ke/Wait/Operations.antt has the operations
--   (`ki_wait_for_objects`, `ki_signal_object`, the releases), Ke/Wait/Timers.antt the timers, and
--   Ke/Wait/Objects.antt the objects of kernel/src/ke/dispatcher.rs. The fuel of `ki_wait_test` is
--   the length of the list of waiters and one more, since each round takes a waiter away. A wait
--   ends where it blocks; the switch to another thread is left out. Ke/Wait/Valid.antt says when
--   the lists and the blocks agree, and Ke/Wait/Steps.antt puts the operations in any order.
-- - Ke/Dpc.antt is kernel/src/ke/dpc.rs: the queue of deferred procedure calls,
--   `ke_insert_queue_dpc` and `ki_retire_dpcs`, whose loop runs on fuel since a routine may queue
--   calls again.
-- - Io/Pipe.antt is kernel/src/io/pipe.rs: the buffer, `write`, `try_read` and the hooks that
--   count writers. Io/Pipe/Stream.antt reads it as a queue of bytes.
-- - Emu/Alu.antt is the part of emu/src/lib.rs that computes flags: `set_zsp`, `apply_alu` and
--   `cond`. Emu/Mmu.antt is emu/src/mmu.rs: `translate`. Emu/Cpu.antt is the part of
--   emu/src/lib.rs that reaches memory, the stack and the operands: `load`, `store`, `read_rm`,
--   `write_rm`, `push64`, `pop64`, with the decoder of operands in Emu/Cpu/Decode.antt;
--   Emu/Cpu/System.antt has the model-specific registers, `deliver_interrupt`, iretq, and
--   `service_pending_irq` of emu/src/machine.rs. Emu/Machine.antt is the part of
--   emu/src/machine.rs that writes the gates, and Emu/Machine/Delivery.antt lets the processor
--   take one. Emu/Devices.antt is emu/src/devices.rs: the serial port, the interrupt controller
--   and its timer, the keyboard and the host transport, with the dispatch of ports and memory
--   windows in Emu/Devices/Dispatch.antt.
-- - Base.antt passes on the names of the libraries and holds the shared helpers; Base/Bits.antt
--   has the laws of `|`, `&`, `<<` and `!` digit by digit.
--
-- Numbers are natural numbers; a 64-bit sum that may wrap or that the code checks is cut off at 2
-- ^ 64 in the definition. An operation that may panic on an index returns an Option, and `none` is
-- the panic; a register behind the end of the list of sixteen reads as 0. The loop of the bitmap's
-- search runs on fuel, one more than the end of the range that it searches: each round moves on by
-- one bit or one word, so it never runs out. All other loops but those of `ki_retire_dpcs` and
-- `ki_wait_test` are recursions on lists or on the number of rounds. The host is taken to be
-- 64-bit, so that `phys as usize` is the address itself. A sum of a size and an address that the
-- guest chooses, in `load`, `store` and the delivery of an interrupt, is `none` from 2 ^ 64 on,
-- the panic of a build with overflow checks; the code pointer and the other sums of the processor
-- wrap. The signal state of a dispatcher object is a 32-bit integer whose decrements and
-- increments wrap, as in a build without those checks.
--
-- Not modelled: the spinlocks (each operation here is one step: it holds its lock throughout, or
-- works on its own after it lets the lock go), the debug assertions of a debug build, and every
-- part of the kernel and of the emulator that is not named above.
pub mod Base
pub mod Rtl
pub mod Mm
pub mod Ob
pub mod Ke
pub mod Io
pub mod Emu
