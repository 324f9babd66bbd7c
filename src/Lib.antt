-- ===== src/Lib.antt =====
-- my-ad: the evidence and gate scripts of the CARLA port, scripts/carla/*.py, and the summary of ROS
-- messages of its harness.
--
-- The scripts decide whether a stage of the port counts as done. A stage writes a report
-- (stage_report.py) that names its checks, the digests of its evidence and the reports of earlier
-- stages; a later stage accepts a report only after verifying all of that again. The endpoint gates
-- (check_carla_runtime.py) produce such a report from a running CARLA server; an invocation report
-- (runtime_entry_report.py) pins the inputs of the gate's run. The other scripts modelled here judge
-- diagnostic runs, keep the forks' patches and provenance current, normalize the staged configuration
-- and record the sources of a build in a manifest (capture_build_manifest.py).
--
-- The files:
--   Prelude         lists, texts, Boolean tests and results, over the native numbers.
--   PyText          Python's texts as lists of code points, with the methods that the scripts call,
--                   and dicts of texts.
--   Json            the values of json.loads, with the two hooks that make it strict
--                   (`_unique_object`, `_invalid_constant`, and their copies `_object`, `_constant`).
--   StageReport     scripts/carla/stage_report.py. Files: `_resolve`, `_digest`, `_snapshot`,
--                   `_file_identity`. Content: `_content_errors`, one function for each block of
--                   statements. Validate: `_validate_file` and `validate_report`. Write:
--                   `write_report`. Verified is the independent description that the theorems
--                   compare with, a derivation for each verified report.
--   RuntimeGate     scripts/carla/check_carla_runtime.py. Queue: the class `AlignedQueue`. Snapshot:
--                   `_integer`, `_finite`, `validate_snapshot`, `_packet_frame` and the tick loop of
--                   `run_gate` in mode "rpc". Payload: `_payload`, `validate_image` and
--                   `read_provenance`. Sensors: `validate_lidar` and the tick loop in mode
--                   "sensors".
--   RuntimeEntry    scripts/carla/runtime_entry_report.py: `capture`, `_input_state` and
--                   `verify_inputs`.
--   RuntimeConfig   scripts/carla/normalize-runtime-config.py.
--   Comparison      scripts/carla/compare_gb10_vulkan_diagnostics.py. Decision: the reading of a
--                   gate's output. Runs: `run_config`, `summarize` and `main`.
--   ForkDelta       scripts/carla/freeze_fork_delta.py.
--   ForkProvenance  scripts/carla/report_fork_provenance.py. Report: the derivation and `compare`.
--   BuildManifest   scripts/carla/capture_build_manifest.py. Paths: `_safe_relative_name`. Files:
--                   `_file_state`, `_archive_file`, `_resolve_artifact`. Lock: `_source_lock_sources`
--                   and `_source_lock_drift`. Ledger: `_validate_change_ledger`. Repository:
--                   `_verify_git`. Snapshot: `_git_snapshot`. Environment: `_environment`,
--                   `_runtime_gate` and `_normalized_command`.
--   PipelineHistory scripts/carla/analyze_vulkan_pipeline_history.py. Record: the reading of the
--                   lines. History: the rest of `analyze`.
--   DriverEntries   scripts/carla/analyze_vulkan_driver_entries.py. Spirv: `spirv_entries`. Markers:
--                   `fields` and `render_pass_snapshot`.
--   CacheLifecycle  scripts/carla/analyze_vulkan_cache_lifecycle.py. Replay: the loop of `analyze`.
--                   Report: what it reports.
--   TopicSample     scripts/harness/sample-topic.py: `summarize_value`.
-- Each of them but Prelude and PyText has a module Samples with concrete runs.
--
-- How the code is represented. An exception is a value of a result type, with one constructor for
-- each message; collected errors are a list in the order of the code. The file system is a function
-- from resolved paths to entries, and a write returns a new function. What the scripts ask of the
-- operating system and of libraries is a parameter: `Host` has path resolution, SHA256, the JSON
-- text format, ISO time stamps and the messages of exceptions; `Paths`, `Machine`, `Stage` and
-- `Clock` have what the single scripts ask beside it, git, make and floating point included. The
-- threads of `AlignedQueue` meet in a schedule: each turn of the waiting loop says which packets
-- the callback delivers before `get` returns, which between it and the next overflow test, and whether
-- the deadline has passed. A packet whose frame is not an integer is refused like one with a negative
-- frame, which stands for it.
--
-- Bounds and fuel. Integers are unbounded, as in Python. `_validate_file` runs on fuel 33, one more
-- than MAX_PREREQUISITE_DEPTH, since each level of the recursion adds an ancestor and the depth test
-- refuses at 32 of them. The loop over the instructions of a SPIR-V module runs on as much fuel as the
-- module has words, since each instruction takes at least one, and the
-- decimal digits of a number on the number itself. All other loops are structural.
--
-- Not modelled: argument parsing, printing, the layout of JSON text, the phases, the spawning,
-- the motion of the camera, the files of the first sample, the count of distinct images, the mode
-- "actors" and the cleanup of `run_gate`, `finalize` of the invocation report, the key files and the toolchain
-- image of the build manifest and the order of its steps in `capture` and `verify`, the counts of events
-- for each thread and cache in the pipeline history (the exception of their sorting is), the loop over the driver-entry markers, the other Python scripts, and the
-- shell scripts, Unreal plugins and patches.
pub mod BuildManifest
pub mod CacheLifecycle
pub mod Comparison
pub mod DriverEntries
pub mod ForkDelta
pub mod ForkProvenance
pub mod Json
pub mod PipelineHistory
pub mod Prelude
pub mod PyText
pub mod RuntimeConfig
pub mod RuntimeEntry
pub mod RuntimeGate
pub mod StageReport
pub mod TopicSample
