-- ===== src/Handler.antt =====
-- What a request handler (redash/handlers) does: it reads and changes the rows of its database session,
-- commits or rolls back, hands messages to background tasks, and may end in an abort or an exception.
-- When the request is over the session is removed: what was not committed is lost.
mod Monad
pub mod Rules
pub mod Ensures
pub mod Keeps
unfoldable pub use Monad.*
