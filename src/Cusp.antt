-- ===== src/Cusp.antt =====
-- The classes of libcusp/cusp/cbindings/include (cusp.h, cusp.cpp).
pub mod Ref
pub mod Classes
pub mod Lifecycle
pub mod Init
pub mod EndPoint
pub mod Address
pub mod Host
pub mod Iterators
pub mod InStream
pub mod OutStream
pub mod Event
pub mod Keys
pub mod Suite
pub mod SuiteQueries
pub mod Behaviour
