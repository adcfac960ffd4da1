-- ===== src/Forms.antt =====
-- The setters of Station/settings.cpp that take the key-value pairs of a web form.
pub mod Pairs
pub mod Plan
pub mod Zones
pub mod General
pub mod Times
