-- ===== src/Nginx.antt =====
-- servers/nginx: the module for nginx, one module for each part of its one file.
pub mod Render
pub mod Headers
pub mod Config
pub mod Setters
pub mod Head
pub mod Body
pub mod CacheBlobs
pub mod RequestCtx
pub mod ParseConfig
pub mod Worker
pub mod Parse
pub mod Served
mod Tests
