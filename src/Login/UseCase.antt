-- ===== src/Login/UseCase.antt =====
-- Core/Application/UseCases/LoginUseCase.cpp
use zem.Base.{ℕ, Bool, false, Option, none, some, List, if◌then◌else◌, bytes_eq}
use zem.Login.{Task, LoginResult, success, invalid_credentials, AccountRepository, LoginPort}

-- `stored_pw.has_value() && stored_pw.value() == password`
unfoldable pub matches : Option (List ℕ) → List ℕ → Bool
matches none password = false
matches (some stored) password = bytes_eq stored password

module _ {World : Type 0} (repo : AccountRepository World) where
  unfoldable pub validate_credentials : List ℕ → List ℕ → Task World LoginResult
  validate_credentials id password w =
      let (stored_pw, w') = repo.get_password id w in
      (if matches stored_pw password then success else invalid_credentials, w')

-- The class and its constructor.
pub record LoginUseCase (World : Type 0) : Type 0 where
  pub repo : AccountRepository World

abbrev pub make_login_use_case : {World : Type 0} → AccountRepository World → LoginUseCase World
make_login_use_case repo = record { repo = repo }

-- It is an `ILoginUseCase`.
abbrev pub login_use_case : {World : Type 0} → LoginUseCase World → LoginPort World
login_use_case u = record { validate_credentials = validate_credentials u.repo }
