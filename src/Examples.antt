-- ===== src/Examples.antt =====
-- Tests of the definitions, and the theorems at concrete inputs.
pub mod Streams
pub mod Translating
pub mod Delivering
pub mod Running
pub mod Feeding
pub mod Serializing
pub mod Threads
pub mod Pending
pub mod Commanding
pub mod Serving
pub mod Reading
pub mod Paging
