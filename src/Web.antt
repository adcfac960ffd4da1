-- ===== src/Web.antt =====
-- Station/web.cpp: the requests of web clients. Their answers are pages and JSON, which are output.
pub mod Request
pub mod Stored
pub mod Handlers
pub mod Keep
