-- ===== src/Http.antt =====
-- tools/web/http_transport.cpp and http_transport.h: the HTTP/1 server of `vc_serve`.
pub mod Auth
pub mod Request
pub mod Server
pub mod Range
pub mod Parameters
pub mod Multipart
mod Tests
