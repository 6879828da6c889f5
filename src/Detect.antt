-- ===== src/Detect.antt =====
-- main/core/detector.h and main/task/task_detect.cpp: the pedestrian detector.
pub mod Box
pub mod Results
pub mod Pedestrian
pub mod Iface
pub mod Task
pub mod Handover
mod Tests
