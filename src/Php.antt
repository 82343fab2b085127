-- ===== src/Php.antt =====
-- php-ext: the extension for PHP, of which the rendering of its JSON is modelled.
pub mod Buffer
pub mod ParseBlob
pub mod CacheBlob
pub mod CacheState
pub mod Hosts
mod Tests
