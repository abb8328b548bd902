-- ===== src/Numeric.antt =====
-- Numbers as the services compute with them: the interface and its laws, and a concrete instance.
mod Defs
pub mod Fixed
pub use Defs.*
