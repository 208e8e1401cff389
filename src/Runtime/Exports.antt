-- ===== src/Runtime/Exports.antt =====
-- The functions that libcusp.sml exports to C, under their C names. A function takes the user data
-- of its callback; the callback itself is the class's static function in cusp.cpp. Strings are
-- returned with their length.
pub mod EndPoint
pub mod Host
pub mod Iterators
pub mod Streams
pub mod Events
pub mod Keys
