-- ===== src/Telemetry.antt =====
-- src/core/telemetry: the sample, the samplers and the timer that drives them.
pub mod Sample
pub mod Sampler
pub mod LinuxSampler
pub mod WinSampler
pub mod Timer
