-- ===== src/Tests.antt =====
-- Runs of the model at concrete inputs, and the theorems at inputs that meet their hypotheses.
mod Codecs
mod Wire
mod Registry
mod Transport
mod Link
mod Recordings
mod Crypto
mod Settings
mod Writer
mod Recorder
mod Ota
mod Replay
mod Diag
