-- ===== src/MockMcu.antt =====
-- The simulated microcontroller, mock_mcu/.
pub mod Gpio
pub mod Uart
pub mod Motion
pub mod RemoteCore
pub mod Node
mod Examples
