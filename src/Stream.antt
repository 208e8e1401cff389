-- ===== src/Stream.antt =====
-- libcusp/cusp/stream: the queues of the protocol engine behind the streams.
pub mod Heap
pub mod OutStreamQueue
pub mod ListHeap
