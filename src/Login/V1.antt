-- ===== src/Login/V1.antt =====
-- Protocol/Login/V1/LoginCodec.cpp
-- Request body: | Id Length | Id | Pw Length | Pw |. Response body: | Result Code |.
use zem.Base.{ℕ, Option, some, List, [], if◌then◌else◌}
use zem.ByteCodec.Reader.{M, ◌>>=◌, done, fail, from_span, empty, string_view, read_len_prefixed}
use zem.ByteCodec.Writer.{make_writer, write_enum}
use zem.Login.{LoginResult, account_locked, login_result_type}

-- `V1::LoginRequestDto`: views into the payload.
pub record LoginRequestDto : Type 0 where
  pub id : List ℕ
  pub password : List ℕ

-- `V1::LoginResponseDto`
pub record LoginResponseDto : Type 0 where
  pub result_code : LoginResult

abbrev pub default_response : LoginResponseDto
default_response = record { result_code = account_locked }

unfoldable pub expect_end : M (Unit {0})
expect_end r = if empty r then done tt r else fail r

unfoldable pub read_request : M LoginRequestDto
read_request = do
  id_view ← read_len_prefixed 4 string_view
  pw_view ← read_len_prefixed 4 string_view
  done_reading ← expect_end
  done (record { id = id_view; password = pw_view })

-- The reader is local, so only the option leaves.
unfoldable pub decode_request : List ℕ → Option LoginRequestDto
decode_request payload = (read_request (from_span payload)).0

unfoldable pub encode_response : LoginResponseDto → Option (List ℕ)
encode_response response =
    some (write_enum login_result_type response.result_code (make_writer [] 8)).1
