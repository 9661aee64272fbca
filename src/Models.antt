-- ===== src/Models.antt =====
-- The tables of app/models, and the database as a record of tables.
mod People
mod Teaching
mod Work
mod Database
pub use People.*
pub use Teaching.*
pub use Work.*
unfoldable pub use Database.*
