-- ===== src/World.antt =====
-- The state that the services share, the errors that they return, and the monad of their methods.
mod State
mod Errors
mod Monad
mod Triples
mod Reads
mod Calls
mod Failures
mod Steps
mod Keeping
mod Runs
pub use State.*
pub use Errors.*
unfoldable pub use Monad.*
unfoldable pub use Triples.*
pub use Reads.*
pub use Calls.*
unfoldable pub use Failures.*
pub use Steps.*
unfoldable pub use Keeping.*
pub use Runs.*
