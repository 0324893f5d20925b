-- ===== src/Lib.antt =====
-- MO-VM, a type-2 hypervisor on KVM (rust-hypervisor/src).
--
-- The program loads a kernel or a boot sector into guest memory, sets up virtual CPUs, attaches virtio
-- devices behind 4 KB windows of guest addresses, and runs the vCPUs; an access to a window leaves the
-- guest and is dispatched to the device behind it, which works on queues in guest memory.
--
-- Parts, in the order in which they build on each other:
--   Common          lists, Boolean tests, bytes and bits; no file of the program.
--   Error           error.rs; Error/Action the fallible, state-passing code of the others.
--   GuestMemory     `read_slice` and `write_slice` of vm_memory, an interface with laws; Flat fills it.
--   KernelLoader    kernel_loader.rs. `load_kernel` is KernelLoader::load_kernel.
--   Memory          memory.rs. `ranges` and `new` are GuestMemoryRegions::new.
--   Vcpu            vcpu.rs. An ioctl stores or gives what the record holds, or fails with an errno.
--   Bootloader      bootloader.rs.
--   Virtio          virtio/mod.rs: the trait. Virtio/Queue: VirtioDeviceConfig and the loop over a queue.
--   Virtio/Mmio     virtio/mmio.rs: the register window over any device.
--   Virtio/Block, Virtio/Console, Virtio/Net, Virtio/Fs   the devices, one file of virtio/ each.
--   Snapshot        snapshot.rs: the states, and those of the vCPUs taken and restored.
--   Snapshot/Format, Snapshot/Serial, Snapshot/RoundTrip   the serializers and visitors over any serde
--                   format, an interface that Format/Content fills for two formats.
--   Snapshot/Memory   save_memory and restore_memory over the regions of a memory, an interface that Plain fills.
--   Snapshot/Manager  SnapshotManager: snapshots, and the files they are written to and read from.
--   Vm              vm.rs: the machine's record, attachment and loading.
--   Vm/Exit         vm.rs: the dispatch of MMIO exits in VirtualMachine::run.
--   Vm/Run          vm.rs: the threads of VirtualMachine::run as steps in any order, and `stop`.
--   Vm/New          vm.rs: VirtualMachine::new.
--   Vm/State        vm.rs: `save_state`, `restore_state`, and what happens when a machine is dropped.
--   Startup         main.rs over any machine; Startup/Real is the machine of vm.rs.
--
-- State is passed explicitly: an operation on `&mut self` takes the state last and returns it with an
-- `Outcome`, which is Rust's Result with a panic as a third case, so that what an operation leaves behind
-- when it fails is part of every statement. A buffer `&mut [u8]` is an argument and a result. Integers
-- are natural numbers with the wrap-around of the release build written out. Loops are recursions on the
-- list that they consume, and the page table loops on their constant number of rounds, so there is no
-- fuel. A queue holds what its iterator yields during a call; that list ends.
--
-- Not part of the repository, hence arguments with laws or answers: vm_memory, virtio_queue, goblin, KVM,
-- serde's formats and bincode, sockets and the host's file system (a regular file of the disk image is
-- modelled: Virtio/Block/Disk). What running makes of a machine is an argument of Startup. A value that a
-- serializer builds is one value of the format; the bytes that it becomes are the format's.
-- Guest memory is one mapping that the machine and its devices share: Vm passes what the machine writes
-- on to every device. The operations of one device work on its own view; that what a device writes while
-- the machine runs reaches the machine and the other devices is not modelled.
-- Not modelled: parsing the command line, logging, poisoned mutexes other than as a panic of a vCPU thread,
-- the drop of the machine at the end of `main` (Vm/State has what it does), and the tests.
pub mod Common
pub mod Error
pub mod GuestMemory
pub mod KernelLoader
pub mod Virtio
pub mod Memory
pub mod Vm
pub mod Vcpu
pub mod Bootloader
pub mod Snapshot
pub mod Startup
