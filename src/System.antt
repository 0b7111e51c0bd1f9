-- ===== src/System.antt =====
-- internal/system: the statistics of the host (stats.go) and the test for CAP_NET_ADMIN
-- (netadmin.go). What gopsutil, the Go runtime and the kernel answer is a parameter.
pub mod Route
pub mod Sampler
pub mod Snapshot
