-- ===== src/Lcd/Probe.antt =====
-- Binding the driver to the panel.
mod Defs
mod Outcome
unfoldable pub use Defs.*
pub use Outcome.*
