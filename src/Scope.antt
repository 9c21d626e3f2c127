-- ===== src/Scope.antt =====
-- scope.go and the parts of proxy.go that move units into and out of the scope.
pub mod Filters
pub mod Units
pub mod Generations
pub mod Config
pub mod Lifecycle
pub mod Barrier
pub mod Persistence
pub mod Samples
