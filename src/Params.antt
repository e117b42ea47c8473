-- ===== src/Params.antt =====
-- utils::Params (include/utils/Params.hpp): the configuration file and its parameters.
pub mod Store
pub mod File
pub mod Invariant
pub mod Lookup
pub mod RoundTrip
pub mod GetAll
mod Tests
