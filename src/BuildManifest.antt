-- ===== src/BuildManifest.antt =====
-- scripts/carla/capture_build_manifest.py: the capture of the sources of a build, and the check that
-- they still are what the manifest says. `Paths` and `Files` model how names and files are read,
-- `Lock` the pins of source.lock, `Ledger` the change ledger, `Snapshot` the
-- capture of a checkout and `Repository` its verification, `Environment` the variables and the runtime.
pub mod Fault
pub mod Paths
pub mod PathLaws
pub mod Files
pub mod FileLaws
pub mod Lock
pub mod LockLaws
pub mod Ledger
pub mod LedgerLaws
pub mod Repository
pub mod RepositoryLaws
pub mod UntrackedLaws
pub mod Environment
pub mod EnvironmentLaws
pub mod Snapshot
pub mod StoreLaws
pub mod SnapshotLaws
mod Samples
mod CaptureSamples
