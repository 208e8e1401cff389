-- ===== src/Runtime.antt =====
-- The SML side of the bindings as the C++ side sees it: the handle buckets of
-- libcusp/cusp/cbindings/libcusp.sml, the engine behind them, and calls that may stop the process.
pub mod Engine
pub mod World
pub mod Handles
pub mod Exports
