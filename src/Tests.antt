-- ===== src/Tests.antt =====
-- Concrete runs of the code: each theorem at inputs where its hypotheses hold.
pub mod Files
pub mod Pools
pub mod Blocks
pub mod Strings
pub mod Tables
pub mod Trees
pub mod Maps
pub mod Database
pub mod Pipes
pub mod Servers
pub mod Mains
pub mod Values
pub mod Keys
pub mod Clients
