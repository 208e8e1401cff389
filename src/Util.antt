-- ===== src/Util.antt =====
-- cbindings/util: the helpers that the demo programs build on the C++ classes.
pub mod Memory
pub mod BufferedOutStream
pub mod AbortableContactHandler
pub mod BiDiConn
pub mod SingleCycle
pub mod SingleMessage
