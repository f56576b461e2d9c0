-- ===== src/Bin/Response.antt =====
-- `ResponseCode` of airfrog-bin/src/lib.rs, and its byte, `rsp as u8`.
use airfrog.Prelude.{ℕ}

pub data ResponseCode : Type 0 where
  ok cmd swd timeout net api : ResponseCode

unfoldable pub response_byte : ResponseCode → ℕ
response_byte ResponseCode.ok = 0x00
response_byte ResponseCode.cmd = 0x81
response_byte ResponseCode.swd = 0x82
response_byte ResponseCode.timeout = 0x83
response_byte ResponseCode.net = 0x84
response_byte ResponseCode.api = 0x85
