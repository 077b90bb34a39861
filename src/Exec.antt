-- ===== src/Exec.antt =====
-- Methods of the services: results, errors, state, events, and what they keep.
mod Errors
mod Base
mod Rules
mod Inversion
pub use Errors.*
unfoldable pub use Base.*
pub use Rules.*
pub use Inversion.*
