-- ===== src/Lib.antt =====
-- RoboCamStreamProcessing: a robot streams its camera, LiDAR, IMU, odometry and occupancy grid over
-- ZeroMQ to a server, which decodes them, runs a processor on the frames and answers each message.
-- This library models the parts of the Python program that carry its own logic.
--
-- Which file models what:
-- - Prelude: numbers, integers, lists and dictionaries that the parts share. A `dict` is an
--   association list in the order of insertion; ℤ and `length` stand over the native numbers.
-- - Pipeline: robocam/pipeline.py. FrameQueue is `FrameQueue`, one function for each method, the
--   clock's value being an argument; FrameQueue/Window is what `put` does seen from outside, and
--   FrameQueue/Trace runs sequences of calls. Workers is `WorkerPool` and its workers' loop as a
--   step relation, and Workers/Conservation its invariant.
-- - Occupancy: robocam/occupancy.py. Array is what is used of numpy; Grid is `Grid` with `counts`;
--   Patch is `apply_patch`; Codec is `encode_cells` and its inverse; Decode is `decode_map`.
-- - Client: link/robocam_client.py. State is the client's state, one `Stream` for each of its five
--   in-flight windows; Send is `connect`, the pumps and the senders; Receive is `_handle`, one
--   function for each message type; Run is a turn of the main loop; Feeds are the slots between
--   the readers' threads and the loop; Maps is `decode_map_patch` and `merge_map_patch`.
-- - Sensors: the serial readers of link/robocam_client.py. Crc is `_crc8_table` and the two
--   checksums, Crc/Catches what they catch; Framing is the loop that `_packets` and `_frames` share,
--   with a parameter for what each does with a packet; Framing/Fuel is its end and Framing/Append
--   its behaviour on bytes that come in parts. Lidar is `SerialLdsSource`: its packets, Lidar/Sweep
--   the revolutions of `scans`, Lidar/Nearest and Lidar/Checked what these hold, Lidar/Packets and
--   Lidar/RoundTrip the packet's layout and its way back. OpenCr is `SerialOpenCRSource`.
-- - Config: robocam/config.py. Sections are the dataclasses, Checks their `__post_init__`, Load is
--   `from_dict`, and Accepted says what the checks let pass.
-- - Wire: robocam/wire.py. Json is the values that a header is made of; Session, Results, Sensors and
--   Announcements are the constructors, each with a record of its arguments; Decode is `encode` and
--   `decode`; Messages is what holds of them together.
-- - Server: robocam/server.py. Session is `Session` with `_pose_for_frame`; Frames is `_on_frame`,
--   which puts into the queue of Pipeline; Streams is `_on_scan`, `_on_imu`, `_on_odom`,
--   `_on_exits` and `_on_phase`; Maps is `_on_map`, which uses Occupancy; Announce is
--   `_send_announcements`; Sessions is the handshake and the reaping; Dispatch is `_on_message`,
--   which reads a message with Wire and calls the others, and `_send`; Dispatch/Isolation is what
--   one client can do to another. Results is `_flush_results`, which looks for the session of each
--   finished frame (Results/Named) and sends it, and Results/Delivered what a client is sent.
-- - Mission: robocam/mission.py. Ranking is `rank_exits`, the score of an exit being a parameter;
--   `check_phase` stands in Server/Streams.
-- - Seek: robocam/seek.py. Keyframes is `KeyframeStore`, Memory is `TargetMemory` and Coverage is
--   `CoverageTracker`; Criteria is `t1_exit_criteria`; Reach is `judge_reach` with the choice of a
--   pose, Reach/Clearance the window of the grid around it and Reach/Standing what is promised.
-- - Processors: robocam/processors/deep3r.py. Deep3r is the bookkeeping of the recurrent state: runs,
--   skipped frames, gaps, resets and the map's name; Deep3r/Map is what that name stands for.
--   Decision is the decision stage, which uses Seek: the search of the keyframes (Decision/Recall)
--   and, in Decision/Watch, the detector on the frame, `_decide` and when a `found` is sent;
--   Decision/News and Decision/Mission are what it announces.
-- - Decoders: robocam/lidar.py and robocam/imu.py. Words is `np.frombuffer` and `tobytes`; Scans is
--   `decode_scan` and `encode_scan_payload` without the bearings, Scans/Explained what it accepts;
--   Bursts is `decode_imu` with `_to_si`, and `encode_imu_payload`; each RoundTrip reads back.
-- - Regions: robocam/regions.py. Components is `_components`; its Counting, Growth and Loop lead to
--   Partition, where the components are the connected regions of the blocks.
--
-- How it is modelled: a method is a function of the object's state, and what it sends or calls is a
-- list in its result. Exceptions are `none` or a sum. Times are nanoseconds. The framing loop of Sensors
-- runs on fuel, one round more than the buffer has bytes, which is enough since a round drops one;
-- the flood fill of Regions on one round for each block, since a round takes one off the queue;
-- every other loop runs over a list that gets shorter. A socket, JSON, zlib, an image decoder, a
-- processor and the arithmetic and tests of floats are parameters; int8 cells and bytes are numbers
-- with their conversion written out.
--
-- Not modelled: float geometry and image processing (robocam/compare.py, detect.py, overlay.py, the
-- analyses of lidar.py, imu.py and odometry.py, robocam/processors/fusion.py), which is numpy or
-- OpenCV; the network of deep3r.py with its cloud, its detector and `locate`; the cameras, the ROS
-- readers, the opening of serial ports and the texts of their diagnoses; the YAML parser and the
-- server's poll loop; logging and statistics; and in a reply of Server what it carries beyond its
-- number and how it went, the running agreement and the t1 verdict.
pub mod Prelude
pub mod Pipeline
pub mod Occupancy
pub mod Client
pub mod Processors
pub mod Regions
pub mod Sensors
pub mod Server
pub mod Wire
pub mod Seek
pub mod Config
pub mod Decoders
pub mod Mission
