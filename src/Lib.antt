-- ===== src/Lib.antt =====
-- MiniVisor: a small type-1 hypervisor for AArch64 that runs Linux guests on several CPUs. This
-- library models the parts that carry its logic and proves what each of them promises.
--
-- A guest's access to a device traps to synchronous_handler (Exception), which decodes it and lets
-- the current guest (Vm) dispatch it to the handler of a region: the virtual interrupt controller
-- (Gic), the virtual UART (Pl011), or the disk (VirtioBlkMmio), which
-- serves its requests from a file (Fat32). A device raises an interrupt through the
-- distributor or the redistributor (Gic), which makes a list register entry (Vgic) and puts it into
-- a list register of the CPU (Cpu), or queues it and signals the CPU that the guest runs on; there
-- the handlers of Gic.Handlers inject it, and retire interrupts that a guest has finished. Shared
-- state is guarded by a spin lock (Mutex). Memory comes from the allocator (Allocator), the
-- disk's sectors from the driver (VirtioBlk), a guest's memory is mapped by the tables of stage 2
-- (Paging), and further CPUs are started by the firmware (Psci).
--
-- Files and the source they model:
--   Cpu                     src/asm.rs: the system registers of a CPU, as fields, and the affinity
--   Vgic, Vgic/*            src/vgic.rs: create_list_register_entry, add_virtual_interrupt
--   Gic/Common              src/mmio/gicv3.rs: affinities and the SGI to another CPU
--   Gic/Distributor, and *  src/mmio/gicv3.rs: GicDistributorMmio; Mmio has its read and write
--   Gic/Redistributor, *    src/mmio/gicv3.rs: GicRedistributorMmio; Mmio has its read and write
--   Gic/Handlers            src/vgic.rs: maintenance_interrupt_handler, and src/mmio/gicv3.rs:
--                           inject_interrupt_handler
--   Pl011                   src/mmio/pl011.rs: Pl011Mmio
--   Mutex                   src/lock.rs: lock and the guard's drop, as a step relation
--   Allocator/*             src/memory_allocator.rs: Monad has the data, Pool the entries and the
--                           chain, FreeList the free lists, Used define_used_memory, Free
--                           define_free_memory and free, Allocate allocate, Align the arithmetic
--   Psci                    src/psci.rs: the error codes, check_psci_version, cpu_on
--   Vm, Vm/Guest            src/vm.rs: the dispatch, the guests, the devices that create_vm sets up
--   Exception               src/exception.rs: synchronous_handler, data_abort_handler, with the
--                           constants of src/registers.rs
--   Paging, Paging/*        src/paging.rs: Descriptor the words, Paging the recursive mapping, Stage2
--                           init_stage2_translation_table and map_address_stage2; Walk has the walk
--                           that the architecture makes, which the others prove things of
--   VirtioBlkMmio, and *    src/mmio/virtio_blk.rs: the requests of a queue; Mmio has the registers
--                           and the loop over the requests, UsedRing what write_used stores
--   Elf                     src/elf.rs: the header and the iteration over the program headers
--   Fat32, Fat32/*          src/fat32.rs: Fat32 the tables and the directory, Volume Fat32::new,
--                           Transfer read and write
--   VirtioBlk, VirtioBlk/*  src/drivers/virtio_blk.rs: the descriptors and operation_sync
--   Examples/*              the theorems at concrete inputs
-- Base and its children hold what these share: lists and tests over native numbers, words and their
-- bits, and Exec for code that may panic.
--
-- Correspondence. A method of a struct is a function from the struct's record to its new value; a
-- method that may panic (an index, an assertion, an unwrap) returns Exec, and println! for the log is
-- left out. A uN is a number below 2^N; a cast is the remainder by 2^N, and a shift left keeps the
-- high bits where the operands are small enough for u64. The sums of addresses that the guest, its
-- description or an ELF file gives (Vm, Elf) wrap at 2^64, as in a build without overflow checks; with
-- them they panic, and the theorems ask for values that do not overflow. So do those on the used ring of
-- the virtual disk, whose rings lie below 2^64. The allocator's code returns an Outcome: ok
-- and err with the state reached, panic, or out_of_fuel.
--
-- Fuel. The loops over the pool of 64 entries get 65 rounds, one for each entry of a chain without
-- cycles and one for its end; define_free_memory takes its fuel as an argument. The loops of the
-- interrupt controller are over the bits of a written word, which halves at each round; the spin loop
-- of the disk driver is over the values that the status byte shows. The recursion of the paging code is
-- on the levels of the tables, and its loops on the descriptors that are left. FAT32's loops and those of
-- the virtual disk take fuel: a run of clusters ends within one round for each cluster's worth of bytes,
-- while a guest can give the disk a chain of descriptors that never ends.
--
-- Outside of the model: the firmware's smc, the disk device, and the guest's other devices are
-- parameters, and so are the disk, the pages and the memory below FAT32, and the memory, the file
-- and the interrupt controller below the virtual disk, of whose memory a theorem asks that a byte reads
-- back as it was stored (IsMemory). The device tree, the consoles, the physical
-- drivers and the start-up code are not modelled.
pub mod Base
pub mod Paging
pub mod Fat32
pub mod Elf
pub mod VirtioBlkMmio
pub mod Cpu
pub mod Vgic
pub mod Gic
pub mod Pl011
pub mod Mutex
pub mod Allocator
pub mod Psci
pub mod Vm
pub mod VirtioBlk
pub mod Exception
pub mod Examples
