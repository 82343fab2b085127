-- ===== src/Json.antt =====
-- JSON as the modules write it for libgomesi: an independent value type, printer and reader,
-- against which the string builders of the modules are checked.
pub mod Text
pub mod Number
pub mod Value
pub mod Read
pub mod RoundTrip
