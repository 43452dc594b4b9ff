-- ===== src/Config.antt =====
-- internal/config/config.go and internal/config/secret.go: reading one variable of the environment
-- (`Values`), the secret and its rules (`Secrets`), and `Load` over all of them (`Load`).
pub mod Values
pub mod Secrets
pub mod Load
mod Tests
