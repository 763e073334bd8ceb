-- ===== src/Protocol.antt =====
-- Adapters/Inbound/Tcp/Protocol: WireTypes.hpp, Service/Protocol.hpp, Common/ApiVersion.hpp and
-- IConnection.hpp. An enum value is a constructor; `unlisted` is a value of the enum's underlying
-- type that no enumerator has, which a cast of received bytes can give.
pub mod ApiVersion
pub mod Header
pub mod Versions
pub mod Runs
use zem.Base.{ℕ, zero, suc, ◌+◌, ◌<◌, ◌≡◌, Option, List, ◌++◌, length, take, drop, All}
use zem.ByteCodec.Detail.{modulus}
use zem.ByteCodec.Unsigned.{IsByte}

-- The sizes of the wire's fields: `uint32_t`, `uint32_t` and `uint16_t`.
abbrev pub service_code_field_size : ℕ
service_code_field_size = 4

abbrev pub data_length_field_size : ℕ
data_length_field_size = 4

abbrev pub api_version_field_size : ℕ
api_version_field_size = 2

-- `boost::endian::endian_arithmetic<order::big, …>`: the bytes in memory of an unsigned value of
-- `size` bytes, and the value that bytes in memory stand for.
pub record BigEndian : Type 0 where
  pub store : ℕ → ℕ → List ℕ
  pub load : List ℕ → ℕ
  pub length-store : (size v : ℕ) → length (store size v) ≡ size
  pub store-IsByte : (size v : ℕ) → All IsByte (store size v)
  pub load-store : (size v : ℕ) → v < modulus size → load (store size v) ≡ v

-- `ServiceCodeBE`, `DataLengthBE` and `ApiVersionBE`: a value of each as its bytes in memory.
abbrev pub service_code_be : BigEndian → ℕ → List ℕ
service_code_be e v = e.store service_code_field_size v

abbrev pub data_length_be : BigEndian → ℕ → List ℕ
data_length_be e v = e.store data_length_field_size v

abbrev pub api_version_be : BigEndian → ℕ → List ℕ
api_version_be e v = e.store api_version_field_size v

pub data TcpServiceType : Type 0 where
  ping pong login receiving type_cnt : TcpServiceType
  unlisted : ℕ → TcpServiceType

-- `static_cast<TCPServiceType>` of a code, and back.
unfoldable pub to_service_type : ℕ → TcpServiceType
to_service_type zero = ping
to_service_type (suc zero) = pong
to_service_type (suc (suc zero)) = login
to_service_type (suc (suc (suc zero))) = receiving
to_service_type (suc (suc (suc (suc zero)))) = type_cnt
to_service_type (suc (suc (suc (suc (suc n))))) = unlisted (n + 5)

unfoldable pub to_code : TcpServiceType → ℕ
to_code ping = 0
to_code pong = 1
to_code login = 2
to_code receiving = 3
to_code type_cnt = 4
to_code (unlisted n) = n

-- `TCPHeaderConv`: three big-endian fields, with no padding between them (`alignas(2)`).
pub record TcpHeaderConv : Type 0 where
  pub service_type : ℕ
  pub data_size : ℕ
  pub api_version : ℕ

abbrev pub header_size : ℕ
header_size = service_code_field_size + data_length_field_size + api_version_field_size

module _ (e : BigEndian) where
  -- The object representation, which `std::memcpy` copies into a frame's header.
  unfoldable pub header_bytes : TcpHeaderConv → List ℕ
  header_bytes h =
      service_code_be e h.service_type
      ++ (data_length_be e h.data_size ++ api_version_be e h.api_version)

  -- The fields of a header into which `async_read` has put bytes.
  unfoldable pub header_of_bytes : List ℕ → TcpHeaderConv
  header_of_bytes bs = record {
    service_type = e.load (take service_code_field_size bs);
    data_size = e.load (take data_length_field_size (drop service_code_field_size bs));
    api_version = e.load (drop (service_code_field_size + data_length_field_size) bs);
  }

-- What code can ask of an `IConnection`.
pub data Call : Type 0 where
  send : TcpServiceType → Option (List ℕ) → ℕ → Call
  close : Call
