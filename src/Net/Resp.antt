-- ===== src/Net/Resp.antt =====
-- src/net/resp.h and resp.cpp: RESP, both directions.
pub mod Text
pub mod SplitArgs
pub mod Request
pub mod Reply
