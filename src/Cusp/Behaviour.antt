-- ===== src/Cusp/Behaviour.antt =====
-- What the methods of the handle classes do on handles in use, and on the others.
pub mod Streams
pub mod Hosts
pub mod Iteration
pub mod Openings
pub mod Exhausted
pub mod HostLoop
pub mod Links
