-- ===== src/Kernel.antt =====
-- crates/kernel: the fault injectors that act on the kernel.
pub mod Bpf
pub mod Xdp
pub mod TimeSkew
pub mod Files
pub mod Objects
pub mod Packets
pub mod CgroupMem
mod Tests
