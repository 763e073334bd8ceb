-- ===== src/Login/Codec.antt =====
-- Protocol/Login/LoginCodec.cpp: the codec of each version.
use zem.Base.{ℕ, Option, none, some, List, ◌==◌, if◌then◌else◌}
use zem.Protocol.ApiVersion.{v1}
use zem.Login.{LoginResult, LoginRequestDto}
use zem.Login.V1

-- The dto of version 1, as the common one.
unfoldable pub to_common : Option V1.LoginRequestDto → Option LoginRequestDto
to_common none = none
to_common (some decoded) = some (record { id = decoded.id; password = decoded.password })

unfoldable pub decode_request : ℕ → List ℕ → Option LoginRequestDto
decode_request api_version payload =
    if api_version == v1 then to_common (V1.decode_request payload) else none

unfoldable pub encode_response : ℕ → LoginResult → Option (List ℕ)
encode_response api_version result_code =
    if api_version == v1 then V1.encode_response (record { result_code = result_code }) else none
