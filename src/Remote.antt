-- ===== src/Remote.antt =====
-- The storage management server, as pkg/flexblock/flexblock.go uses it over HTTP: login and the
-- search for the clusters, volumes, targets.
pub mod Cluster
pub mod Volumes
pub mod Search
pub mod Silent
pub mod Target
pub mod Polling
pub mod Frame
