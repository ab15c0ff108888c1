-- ===== src/UserRegistry.antt =====
-- internal/userregistry/client.go
pub mod Access
pub mod Client
