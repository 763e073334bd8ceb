-- ===== src/Protocol/ApiVersion.antt =====
-- Common/ApiVersion.hpp: the versions that the server speaks.
use zem.Base.{ℕ, Bool, false, ◌&&◌, not, leb, ◌==◌, if◌then◌else◌}
use zem.Protocol.{TcpServiceType, ping, pong, login, receiving}

abbrev pub v1 : ℕ
v1 = 1

abbrev pub latest : ℕ
latest = v1

abbrev pub min_supported : ℕ
min_supported = v1

unfoldable pub is_supported : ℕ → Bool
is_supported version = leb min_supported version && leb version latest

-- The `switch` of the overload that takes a service type; the last clause is `default`.
unfoldable pub serves : TcpServiceType → ℕ → Bool
serves ping version = version == v1
serves pong version = version == v1
serves login version = version == v1
serves receiving version = version == v1
serves _ version = false

unfoldable pub is_supported_for : TcpServiceType → ℕ → Bool
unfolding is_supported serves
is_supported_for service_type version =
    if not (is_supported version) then false else serves service_type version
