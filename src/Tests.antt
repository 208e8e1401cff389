-- ===== src/Tests.antt =====
-- The theorems at concrete inputs, and runs of the code. Samples holds the inputs.
mod Samples
mod Buckets
mod Suites
mod Classes
mod Buffered
mod Connections
mod Requests
mod Queues
mod Demos
