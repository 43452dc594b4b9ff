-- ===== src/Store.antt =====
-- internal/store/migrate.go and internal/store/migrations_fs.go: reading the numbered migration
-- files (`Files`), and applying them to a database (`Migrate`).
pub mod Files
pub mod Migrate
