-- ===== src/Session.antt =====
-- A SQLAlchemy session as a monad. A computation is a chain of statements. Each statement is
-- one short transaction: before it, other sessions (API requests, workers, heartbeats) may have
-- changed the database, and it may raise a SQLAlchemyError, which changes nothing.
mod Monad
mod Laws
mod Steps
mod Calm
unfoldable pub use Monad.*
pub use Laws.*
pub use Steps.*
pub use Calm.*
