-- ===== src/Leds.antt =====
-- The LEDs of the two buses: LedControllerUtil (include/utils/LedControllerUtil.hpp), and the
-- constructor and handleStatusChanged of Sniffer (src/sniffer/Sniffer.cpp) that drive it.
pub mod Files
pub mod Signals
pub mod Directories
pub mod Display
mod Tests
