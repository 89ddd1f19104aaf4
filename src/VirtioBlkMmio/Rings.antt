-- ===== src/VirtioBlkMmio/Rings.antt =====
-- src/mmio/virtio_blk.rs: where the rings lie.
use mini_visor_real_device.VirtioBlkMmio.{VirtioBlkMmio}
