-- ===== src/Api.antt =====
-- app/routers: the endpoints of the API.
pub mod Guards
pub mod Reports
pub mod Students
pub mod Enrollments
pub mod Users
pub mod Catalogue
pub mod Routes
mod Tests
