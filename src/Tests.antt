-- ===== src/Tests.antt =====
-- The theorems at concrete inputs, and runs of the definitions.
mod Codec
mod Protocol
mod Client
mod Server
mod Runs
mod Network
mod Restart
mod Reporting
mod Queue
mod Telemetry
mod Executor
mod Wts
mod Mstsc
mod Apps
mod Serving
mod Process
mod Reports
mod Plugin
mod Working
mod ServerWorking
