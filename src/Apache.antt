-- ===== src/Apache.antt =====
-- servers/apache: the output filter module of the Apache HTTP server.
pub mod Number
pub mod Config
pub mod Hosts
pub mod Directive
pub mod ParseConfig
pub mod CacheConfig
pub mod RequestCtx
pub mod Headers
pub mod Process
pub mod Dispatch
pub mod Filter
mod Tests
