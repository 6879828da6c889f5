-- ===== src/Config.antt =====
-- main/app_config.h and main/core/libpeer_config.h: the tunables that the model reads.
use esp32_ipc.Base.{ℕ, ◌*◌, ◌-◌, ◌/◌}

abbrev pub config_codec_h264_fps : ℕ
config_codec_h264_fps = 12

abbrev pub config_audio_duration : ℕ
config_audio_duration = 20

abbrev pub cam_width : ℕ
cam_width = 1920

abbrev pub cam_height : ℕ
cam_height = 1080

abbrev pub cap_buf_count : ℕ
cap_buf_count = 3

abbrev pub video_queue_len : ℕ
video_queue_len = cap_buf_count - 2

abbrev pub h264_target_fps : ℕ
h264_target_fps = config_codec_h264_fps

abbrev pub video_frame_interval_us : ℕ
video_frame_interval_us = 1000000 / h264_target_fps

abbrev pub det_width : ℕ
det_width = 480

abbrev pub det_height : ℕ
det_height = 270

abbrev pub det_max_box : ℕ
det_max_box = 5

abbrev pub det_feed_elements : ℕ
det_feed_elements = 2

abbrev pub det_feed_every_n : ℕ
det_feed_every_n = 3

abbrev pub det_timing_window : ℕ
det_timing_window = 16

abbrev pub osd_y : ℕ
osd_y = 76

abbrev pub osd_u : ℕ
osd_u = 84

abbrev pub osd_v : ℕ
osd_v = 255

abbrev pub osd_thickness : ℕ
osd_thickness = 4

abbrev pub osd_corner_len : ℕ
osd_corner_len = 48

abbrev pub audio_sample_rate : ℕ
audio_sample_rate = 8000

abbrev pub audio_samples_per_packet : ℕ
audio_samples_per_packet = config_audio_duration * audio_sample_rate / 1000

abbrev pub audio_read_bytes : ℕ
audio_read_bytes = audio_samples_per_packet * 2

abbrev pub enc_out_buf_count : ℕ
enc_out_buf_count = 1

abbrev pub video_dqbuf_timeout_ms : ℕ
video_dqbuf_timeout_ms = 1000

abbrev pub h264_i_period : ℕ
h264_i_period = h264_target_fps

abbrev pub h264_bitrate : ℕ
h264_bitrate = 2000000

abbrev pub h264_min_qp : ℕ
h264_min_qp = 22

abbrev pub h264_max_qp : ℕ
h264_max_qp = 51

abbrev pub h264_max_frame_bytes : ℕ
h264_max_frame_bytes = 640 * 1024

abbrev pub audio_spk_jitter_ms : ℕ
audio_spk_jitter_ms = 160

abbrev pub audio_spk_jitter_bytes : ℕ
audio_spk_jitter_bytes = audio_spk_jitter_ms * audio_sample_rate / 1000

abbrev pub webrtc_peer_ice_loop_ms : ℕ
webrtc_peer_ice_loop_ms = 1

abbrev pub webrtc_peer_loop_ms : ℕ
webrtc_peer_loop_ms = 5

abbrev pub task_audio_stack_size : ℕ
task_audio_stack_size = 4096

abbrev pub task_speaker_stack_size : ℕ
task_speaker_stack_size = 3072

abbrev pub task_video_stack_size : ℕ
task_video_stack_size = 4096

abbrev pub task_webrtc_stack_size : ℕ
task_webrtc_stack_size = 4096

abbrev pub task_capture_stack_size : ℕ
task_capture_stack_size = 4096

abbrev pub task_encode_stack_size : ℕ
task_encode_stack_size = 4096

abbrev pub task_peer_stack_size : ℕ
task_peer_stack_size = 8192

abbrev pub task_prio_audio : ℕ
task_prio_audio = 5

abbrev pub task_prio_speaker : ℕ
task_prio_speaker = 5

abbrev pub task_prio_peer : ℕ
task_prio_peer = 6

abbrev pub task_prio_video_cap : ℕ
task_prio_video_cap = 5

abbrev pub task_prio_video_enc : ℕ
task_prio_video_enc = 5

abbrev pub task_prio_video_init : ℕ
task_prio_video_init = 4

abbrev pub task_prio_webrtc : ℕ
task_prio_webrtc = 3

abbrev pub task_prio_stats : ℕ
task_prio_stats = 1

abbrev pub task_core_video : ℕ
task_core_video = 0

abbrev pub task_core_audio : ℕ
task_core_audio = 0

abbrev pub task_core_speaker : ℕ
task_core_speaker = 0

abbrev pub task_core_webrtc : ℕ
task_core_webrtc = 0

abbrev pub task_core_peer : ℕ
task_core_peer = 0
