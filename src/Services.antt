-- ===== src/Services.antt =====
-- app/services.
pub mod Reports
pub mod Grades
