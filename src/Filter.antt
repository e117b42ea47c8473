-- ===== src/Filter.antt =====
-- The filter engine of src/sniffer/Sniffer.cpp (namespace FilterEngine) and the rule structure of
-- include/communication/CanbusProtocol.h.
pub mod Rule
pub mod Engine
pub mod Spec
pub mod Table
pub mod Sorted
pub mod Process
pub mod Order
pub mod Modify
pub mod Sorts
mod Tests
