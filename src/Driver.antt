-- ===== src/Driver.antt =====
-- The operations of pkg/flexblock/flexblock.go on a volume, one module for each.
pub mod Disk
pub mod Create
pub mod Update
pub mod Delete
pub mod Load
pub mod Frame
pub mod Laws
pub mod Repeat
pub mod Unanswered
pub mod Unresized
pub mod Commands
