-- ===== src/Web.antt =====
-- tools/web/web_service.cpp and web_service.h: the one job of the web service and the record of its task.
pub mod Job
pub mod Reserve
pub mod Control
pub mod Calls
pub mod Owner
pub mod Durable
pub mod Audio
pub mod Resume
pub mod Ended
mod Tests
