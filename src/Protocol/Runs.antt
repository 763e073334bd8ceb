-- ===== src/Protocol/Runs.antt =====
-- `endian_arithmetic` as the big-endian digits of a number.
use zem.ByteCodec.Unsigned.{be_bytes, be_value, be_bytes-IsByte, length-be_bytes, be_value-be_bytes}
use zem.Protocol.{BigEndian}

abbrev pub digits : BigEndian
digits = record {
  store = be_bytes;
  load = be_value 0;
  length-store = length-be_bytes;
  store-IsByte = be_bytes-IsByte;
  load-store = be_value-be_bytes;
}
