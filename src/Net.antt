-- ===== src/Net.antt =====
-- src/net: the wire protocol.
pub mod Resp
