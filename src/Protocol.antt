-- ===== src/Protocol.antt =====
-- The radio protocol between the stations: Station/RProtocolMS.cpp and SGRProtocol.h.
pub mod Wire
pub mod Node
pub mod Send
pub mod Log
pub mod Request
pub mod Report
pub mod Answer
pub mod Receive
pub mod Keep
pub mod Reject
pub mod Link
