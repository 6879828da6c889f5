-- ===== src/Lib.antt =====
-- The ESP32-P4 IP camera firmware (thanhbinh89/esp32-ipc): a model of its C and C++ code, and the
-- theorems that make it correct.
--
-- The program. The firmware brings up the network, the camera driver and the audio codec, and then
-- hands the work to its tasks. A camera task dequeues frames from the capture driver, paces them and queues their
-- descriptors; an encode task feeds every third frame to a pedestrian detector through a pool of
-- buffers, draws the latest boxes on the frame, publishes the rows that it drew, has the frame
-- encoded and hands the bitstream to the peer connection. A microphone task codes G.711 A-law and
-- sends it; the peer task queues the A-law that arrives for a speaker task, which decodes and plays
-- it.
--
-- Where each part stands.
--   Config           main/app_config.h and main/core/libpeer_config.h, the tunables.
--   Esp              the error codes of ESP-IDF, and the semaphore and the stream buffer of FreeRTOS as
--                    interfaces.
--   G711             main/core/g711.c: `g711a_encode` is encode, `g711a_decode` is decode. Samples are
--                    integers, bytes are natural numbers.
--   Osd.Dirty        `dirty_add` of main/core/osd.c, over the array and the count that the code keeps.
--   Osd.Draw         `draw_hrun` and `draw_vrun` of main/core/osd.c, over a frame of byte offsets.
--   Osd.Corners      `draw_corners` and `osd_draw_boxes_yuv420` of main/core/osd.c;
--                    Osd.Corners.Marks is the picture that they draw, as a set of pixels.
--   FramePool        main/core/frame_pool.cpp: the lists by places in the element array; in
--                    FramePool.Steps a submit and a receive are two steps each, as their locks allow,
--                    and FramePool.Steps.Refine has the pool without its lists and its semaphore.
--   FramePool.New    `frame_pool_new` is new_pool, `frame_pool_delete` is delete_pool, over a heap that
--                    is an interface; FramePool.New.Life is the whole life of a pool between the two.
--   Detect.Box       `det_box_t` of main/core/detector.h.
--   Detect.Results   main/task/task_detect.cpp: `store_results` and `ped_get_boxes` on the shared boxes,
--                    and the timing window of `detect_task`, whose lines over its life are in
--                    Detect.Results.Windows; Detect.Task is a round of its loop.
--   Detect.Pedestrian
--                    the start of the detector and the buffers that it lends, over a frame pool.
--   Detect.Iface     `detector_iface_t` of main/core/detector.h, which the video task takes, with its laws
--                    in Detect.Iface.Lawful and the detectors of both builds.
--   Detect.Handover  `feed_detector` and `detect_task` at once on the buffers of the detector, as steps on
--                    what each of them holds; Detect.Handover.Calls leads from the calls of the code to
--                    the steps, and Detect.Handover.Made starts them on a new pool.
--   Hal.Device       the calls of a V4L2 device that the firmware makes, as an interface whose state says
--                    which buffers of each queue, by index, the driver has.
--   Hal.Vcap         main/hal/hal_video_capture.c: `hal_vcap_open` is open_vcap, the others keep their
--                    names.
--   Hal.H264         main/hal/hal_h264_encoder.c: `hal_h264_open` is open_encoder; encode is cut at its
--                    calls of the driver into encode, collect and reclaim.
--   Hal.Wifi         main/hal/hal_netif.c: the event handlers of the Wi-Fi build as one function of an
--                    event, and the wait for an address.
--   Hal.Ppa          main/hal/hal_ppa.c and the test of a scale in hal_ppa.h.
--   Boot             the statics of the files below and the calls of drivers that they make. A function
--                    that may fail is a function of the statics that answers or ends with an error; a
--                    failed ESP_ERROR_CHECK, which aborts, is an error.
--   Boot.Netif       `netif_start` of both builds and `hal_netif_start_and_wait_ip` of hal_netif.c.
--   Boot.Camera      `hal_video_init` of main/hal/hal_video_init.c.
--   Boot.Codec       main/hal/hal_audio.c.
--   Boot.Main        `app_main` of main/app_main.cpp; bring_up is what comes before the task of libpeer.
--   Boot.Protocol    what the drivers ask of the order of the calls, as the state of the devices after a
--                    log of calls; it is written from the headers of ESP-IDF and of main/, and not from
--                    the order in the code.
--   Video.Pace       `on_frame_grid` of main/task/task_video.cpp, with its static as an argument.
--   Video.Flow       the loops of `video_capture_task` and `video_encode_task` as steps on the capture
--                    buffers, the queue between them and what each task holds.
--   Video.Feed       `feed_detector`, by whether the pixel accelerator succeeds.
--   Video.Overlay    `overlay_boxes`: the frame, the blocks that are written back, and the memory that
--                    the encoder reads after it.
--   Video.Encode     the loop of `video_encode_task` without the detector and the drawing; Video.Round is
--                    the whole of it, over any detector.
--   Video.Start      the start of `task_video`, in Video.Start.Reset after `app_main`; Video.Stats is
--                    `log_stats`, cut where it has printed and is about to clear what the tasks count;
--                    Video.Stats.Lost has both at once.
--   Audio            main/task/task_audio.cpp: a round of the loop over a codec that is a parameter;
--                    Audio.Start is the start of the task, Audio.Loopback is the sound from one
--                    device's microphone task to another's speaker task.
--   Speaker          main/task/task_speaker.cpp: `speaker_submit_g711a` is submit, a round of the loop is
--                    play and report. Speaker.Start is the start of the task, Speaker.Tone
--                    `play_welcome_tone`, Speaker.Reports the overflow reports of a whole life.
--   Webrtc           main/task/task_webrtc.cpp: the callbacks, the gate and the senders; in
--                    Webrtc.Keyframe the key frame request is read and cleared in two steps. Webrtc.Start is
--                    the start of `task_webrtc`, Webrtc.Downlink `on_audio_track`. Webrtc.Callbacks has
--                    the configuration that libpeer is given, and a round of `peer_connection_task` by
--                    the callbacks that libpeer makes in it.
--
-- Bounds and fuel. The loop of `draw_hrun` has `x2` rounds of fuel and moves two columns a round; the
-- loop of `draw_vrun` has one round a row. That this is enough is part of the theorems on the bytes
-- that they write. A note of the welcome tone has one round of fuel more than it has samples, and that the
-- tone ends is a part of its theorem. Every other loop recurs on the rounds that are left. Frame coordinates and box
-- coordinates are unbounded integers: the products of a box coordinate and a scale are assumed not to
-- overflow an int. Times are natural numbers of microseconds.
--
-- Parameters. The FreeRTOS semaphore, its stream buffer, the heap and the V4L2 device are interfaces
-- with the laws that the code relies on, and concrete ones are given where a theorem is applied.
-- That a V4L2 driver takes back a buffer that it does not have is a hypothesis of the theorems that need
-- it; V4L2 refuses an index that is out of range and a buffer that is queued. A
-- FreeRTOS queue of frames is the list of what stands in it. The senders of libpeer and its state
-- numbers are arguments. A descriptor is the device itself; counters wrap at 32 bits as in the code.
--
-- The drivers that are called on the way up are a function from the number of calls so far and the
-- call to an answer, so that they may answer the same call differently each time. The theorems hold of
-- every such function.
--
-- Not modelled: the samples of the welcome tone, which are made in floating point and are a parameter
-- of it; logging, the clock and the times per stage; the fields of a driver's configuration that are
-- constants; the neural network; what the handler of the Ethernet build logs.
pub mod Audio
pub mod Base
pub mod Boot
pub mod Config
pub mod Detect
pub mod Esp
pub mod FramePool
pub mod G711
pub mod Hal
pub mod Osd
pub mod Speaker
pub mod Video
pub mod Webrtc
