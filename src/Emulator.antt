-- ===== src/Emulator.antt =====
-- The emulators of the two ends of the bus (emulators/car_system, emulators/car_computer): the car system
-- that broadcasts its state and answers diagnostic requests, and the car computer.
pub mod Floats
pub mod CanUtils
pub mod CarSystem
pub mod Broadcast
pub mod Simulation
pub mod CarComputer
pub mod Control
pub mod Diagnostics
pub mod Lights
pub mod Answers
mod Tests
