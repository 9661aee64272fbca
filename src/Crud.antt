-- ===== src/Crud.antt =====
-- app/crud: the operations of the API on the tables.
pub mod Response
pub mod Columns
pub mod Times
pub mod Enrollment
pub mod Accounts
pub mod Students
pub mod Catalogue
pub mod Sample
