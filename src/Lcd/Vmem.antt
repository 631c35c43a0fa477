-- ===== src/Lcd/Vmem.antt =====
-- `write_vmem`: 16-bit pixels, high byte first, in batches through `txbuf`.
pub mod Batch
pub mod Loop
pub mod Ends
pub mod Stream
unfoldable pub use Batch.*
unfoldable pub use Loop.*
pub use Stream.*
