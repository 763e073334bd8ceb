-- ===== src/Login.antt =====
-- The login service: Core/Domain/LoginResult.hpp, Core/Application (the use case and its ports) and
-- Adapters/Inbound/Tcp/Protocol/Login with its version 1.
-- An awaitable is the result that it ends with. What a repository reads and writes is a `World` that
-- is passed through, and the views into a request's payload are the bytes that they show.
pub mod V1
pub mod Codec
pub mod UseCase
pub mod Handler
pub mod Decoding
pub mod Answers
mod Runs
use zem.Base.{ℕ, ◌≡◌, true, List, Option, none, some, arith}
use zem.Base.Int.{ℤ, pos}
use zem.ByteCodec.Detail.{IntType, EnumType, InRange, modulus}

pub data LoginResult : Type 0 where
  success invalid_credentials account_locked : LoginResult

-- `LoginRequestDto`, the one of no version.
pub record LoginRequestDto : Type 0 where
  pub id : List ℕ
  pub password : List ℕ

-- `LoginResponseDto`, the one of no version, which no code uses.
pub record LoginResponseDto : Type 0 where
  pub result_code : LoginResult

-- `Task<T>`, an awaitable: run on a world to its end.
abbrev pub Task : Type 0 → Type 0 → Type 0
Task World A = World → A × World

abbrev pub uint32 : IntType
uint32 = record { is_unsigned = true; size = 4 }

abbrev pub code : LoginResult → ℕ
code success = 0
code invalid_credentials = 1
code account_locked = 2

pub code-InRange : (r : LoginResult) → InRange uint32 (pos (code r))
unfolding modulus
code-InRange success = omega arith
code-InRange invalid_credentials = omega arith
code-InRange account_locked = omega arith

-- `enum class LoginResult : std::uint32_t`
abbrev pub login_result_type : EnumType
login_result_type = record {
  Value = LoginResult;
  underlying = uint32;
  to_underlying = λ r. pos (code r);
  to_underlying-InRange = code-InRange;
}

-- `IAccountRepository`, over what it reads and changes.
pub record AccountRepository (World : Type 0) : Type 0 where
  pub get_password : List ℕ → Task World (Option (List ℕ))

-- `ILoginUseCase`.
pub record LoginPort (World : Type 0) : Type 0 where
  pub validate_credentials : List ℕ → List ℕ → Task World LoginResult
