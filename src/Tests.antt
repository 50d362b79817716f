-- ===== src/Tests.antt =====
-- Runs at concrete inputs: every hypothesis of a theorem can be met.
mod Field
mod Matrix
mod Packets
mod Volumes
mod Creation
mod Options
mod Kernels
mod Scans
mod Progress
mod Fused
mod Md5Neon
mod Tiled
mod Paths
mod CommandLine
mod Bars
