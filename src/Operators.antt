-- ===== src/Operators.antt =====
-- Operator enrollments of gateway/pkg/server/operator_enrollment.go: the fields, the store in
-- memory and the handlers.
pub mod Fields
pub mod Store
pub mod Handlers
