-- ===== src/MountFs.antt =====
-- mountfs/mountfs.go: a file system that shows parts of another one, its roots, under visible names.
pub mod Roots
pub mod Resolve
pub mod Virtual
pub mod Methods
pub mod CleanNames
pub mod Accepted
pub mod Construction
pub mod Confinement
pub mod Visible
pub mod Relative
pub mod Access
pub mod Interface
mod Examples
