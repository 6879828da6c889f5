-- ===== src/Video.antt =====
-- main/task/task_video.cpp: the camera task, its capture and encode tasks.
pub mod Pace
pub mod Flow
pub mod Feed
pub mod Encode
pub mod Round
pub mod Start
pub mod Stats
pub mod Overlay
pub mod Tests
