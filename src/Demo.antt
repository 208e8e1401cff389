-- ===== src/Demo.antt =====
-- cbindings/demo: programs over the C++ classes, without what they print and parse.
pub mod Server
pub mod Client
