-- ===== src/Http.antt =====
-- The HTTP part of the library, src/http and include/http.
pub mod Method
pub mod Status
pub mod Request
pub mod Response
