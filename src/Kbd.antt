-- ===== src/Kbd.antt =====
-- The two keyboard drivers: picocalc_mfd_kbd (a child of the MFD, over regmap) and picocalc_kbd (the
-- stand-alone one, over SMBus). `Dirs`, `Fifo` and `Pointer` are what their sources share.
pub mod Codes
pub mod Dirs
pub mod Fifo
pub mod Queue
pub mod Pointer
pub mod Batch
pub mod Valid
pub mod Delivery
pub mod Poll
pub mod Mfd
pub mod Legacy
