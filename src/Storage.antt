-- ===== src/Storage.antt =====
-- src/storage: values, columns, tables, the primary-key index and databases.
pub mod Value
pub mod Index
pub mod Table
pub mod Disk
pub mod Database
pub mod File
pub mod Registry
