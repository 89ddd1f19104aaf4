-- ===== src/Gic.antt =====
-- src/mmio/gicv3.rs: the virtual GICv3 that a guest sees.
pub mod Common
pub mod Distributor
pub mod Bitmap
pub mod Redistributor
pub mod Handlers
