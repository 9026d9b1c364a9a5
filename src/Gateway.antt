-- ===== src/Gateway.antt =====
-- The middleware in front of the API's handlers, and what a client is told of a failure:
-- internal/api/middleware.go and errors.go.
pub mod Session
pub mod Roles
pub mod Origins
pub mod Served
pub mod PublicError
pub mod Disclosed
