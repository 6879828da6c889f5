-- ===== src/Hal.antt =====
-- main/hal: the drivers of the hardware.
pub mod Device
pub mod H264
pub mod Vcap
pub mod Wifi
pub mod Ppa
pub mod Tests
