-- ===== src/Students.antt =====
-- service/student_service.go.
pub mod List
pub mod World
pub mod Keys
pub mod Write
pub mod Score
pub mod Get
mod Tests
