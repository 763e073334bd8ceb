-- ===== src/App/Env.antt =====
-- The configuration. `getenv` and `strtoul`, with base 10, are parameters: a C string is the list of its
-- characters before the terminator, and `strtoul` gives its number and the index where it stopped.
use Prim.Native.String.{String}
use zem.Base.{
  ℕ, ◌≤◌, ◌≡◌, refl, sym, subst, ◌⊎◌, inl, inr, Bool, not, ◌&&◌, Option, none, some, List, [], ◌∷◌,
  leb, ◌==◌, if◌then◌else◌, length, arith,
}
use zem.Base.Text.{codes}

-- `AppContext::DbConfig`
pub record DbConfig : Type 0 where
  pub address : List ℕ
  pub port : List ℕ
  pub name : List ℕ
  pub user : List ℕ
  pub password : List ℕ

-- `AppContext::Config`
pub record Config : Type 0 where
  pub db : DbConfig
  pub port : ℕ
  pub db_pool_size : ℕ
  pub db_thread_count : ℕ

-- `std::numeric_limits<std::uint16_t>::max()`
abbrev pub uint16_max : ℕ
uint16_max = 65535

unfoldable pub non_empty : Option (List ℕ) → Option (List ℕ)
non_empty none = none
non_empty (some []) = none
non_empty (some (c ∷ cs)) = some (c ∷ cs)

-- The two branches of a test for a whole number `n` of `len` characters, read up to `end`.
whole_port :
    (n end len d : ℕ)
    → d ≤ uint16_max
    → let r = if (not (end == 0) && end == len) && leb n uint16_max then n else d in
      (r ≤ uint16_max)
      × (((n ≡ r) × (1 ≤ end) × (end ≡ len))
          ⊎ ((r ≡ d) × ¬ ((1 ≤ end) × (end ≡ len) × (n ≤ uint16_max))))
whole_port n end len d h = ground arith

whole_size :
    (n end len d : ℕ)
    → let r = if not (end == 0) && end == len then n else d in
      ((n ≡ r) × (1 ≤ end) × (end ≡ len)) ⊎ ((r ≡ d) × ¬ ((1 ≤ end) × (end ≡ len)))
whole_size n end len d = ground arith

module _ (getenv : String → Option (List ℕ)) (strtoul : List ℕ → ℕ × ℕ) where
  unfoldable pub get_env : String → Option (List ℕ)
  unfolding non_empty
  get_env name = non_empty (getenv name)

  -- `end != value && *end == '\0'`
  abbrev pub whole : List ℕ → Bool
  whole value = not ((strtoul value).1 == 0) && (strtoul value).1 == length value

  unfoldable pub size_or : Option (List ℕ) → ℕ → ℕ
  size_or none default_value = default_value
  size_or (some value) default_value = if whole value then (strtoul value).0 else default_value

  unfoldable pub get_env_or_default_size : String → ℕ → ℕ
  unfolding get_env size_or
  get_env_or_default_size name default_value = size_or (get_env name) default_value

  unfoldable pub port_or : Option (List ℕ) → ℕ → ℕ
  port_or none default_value = default_value
  port_or (some value) default_value =
      if whole value && leb (strtoul value).0 uint16_max then (strtoul value).0 else default_value

  unfoldable pub get_env_or_default_port : String → ℕ → ℕ
  unfolding get_env port_or
  get_env_or_default_port name default_value = port_or (get_env name) default_value

  -- `value` is a number to its end.
  abbrev pub IsNumber : List ℕ → ℕ → Type 0
  IsNumber value n =
      ((strtoul value).0 ≡ n) × (1 ≤ (strtoul value).1) × ((strtoul value).1 ≡ length value)

  -- The text that was `found` is a number that fits a port.
  abbrev pub HasPort : Option (List ℕ) → Type 0
  HasPort found =
      (value : List ℕ) × (n : ℕ) × (found ≡ some value) × IsNumber value n × (n ≤ uint16_max)

  abbrev pub PortOf : Option (List ℕ) → ℕ → ℕ → Type 0
  PortOf found default_value port =
      (port ≤ uint16_max)
      × (((value : List ℕ) × (found ≡ some value) × IsNumber value port)
          ⊎ ((port ≡ default_value) × ¬ HasPort found))

  port_or_lem :
      (found : Option (List ℕ)) (d : ℕ) → d ≤ uint16_max → PortOf found d (port_or found d)
  unfolding port_or
  port_or_lem none d h = (h, inr (refl, λ p. cc))
  port_or_lem (some value) d h =
      let (le, one_of) = whole_port (strtoul value).0 (strtoul value).1 (length value) d h in
      elim one_of [
        | inl number ↦ (le, inl (value, refl, number))
        | inr (same, none_fits) ↦ (
          le,
          inr (
            same,
            λ p.
                let (v, n, found, number, small) = p in
                let is : value ≡ v = cc in
                none_fits (
                  subst
                    (λ x.
                      (1 ≤ (strtoul x).1)
                      × ((strtoul x).1 ≡ length x)
                      × ((strtoul x).0 ≤ uint16_max))
                    (sym is) (number.1, number.2, omega (arith, number.0))),
          ),
        )
      ]

  -- A port from the environment fits a port, if the default does: it is the number that the variable's text
  -- is, if that fits, and otherwise the default.
  pub get_env_or_default_port_lem :
      (name : String) (default_value : ℕ)
      → default_value ≤ uint16_max
      → PortOf (get_env name) default_value (get_env_or_default_port name default_value)
  unfolding get_env_or_default_port
  get_env_or_default_port_lem name default_value h = port_or_lem (get_env name) default_value h

  abbrev pub HasSize : Option (List ℕ) → Type 0
  HasSize found = (value : List ℕ) × (n : ℕ) × (found ≡ some value) × IsNumber value n

  abbrev pub SizeOf : Option (List ℕ) → ℕ → ℕ → Type 0
  SizeOf found default_value size =
      ((value : List ℕ) × (found ≡ some value) × IsNumber value size)
      ⊎ ((size ≡ default_value) × ¬ HasSize found)

  size_or_lem : (found : Option (List ℕ)) (d : ℕ) → SizeOf found d (size_or found d)
  unfolding size_or
  size_or_lem none d = inr (refl, λ p. cc)
  size_or_lem (some value) d =
      elim (whole_size (strtoul value).0 (strtoul value).1 (length value) d) [
        | inl number ↦ inl (value, refl, number)
        | inr (same, no_number) ↦ inr (
          same,
          λ p.
              let (v, n, found, number) = p in
              let is : value ≡ v = cc in
              no_number (
                subst (λ x. (1 ≤ (strtoul x).1) × ((strtoul x).1 ≡ length x)) (sym is)
                  (number.1, number.2)),
        )
      ]

  -- A size from the environment is the number that the variable's text is to its end, and otherwise the
  -- default.
  pub get_env_or_default_size_lem :
      (name : String) (default_value : ℕ)
      → SizeOf (get_env name) default_value (get_env_or_default_size name default_value)
  unfolding get_env_or_default_size
  get_env_or_default_size_lem name default_value = size_or_lem (get_env name) default_value

  unfoldable pub text_or : Option (List ℕ) → List ℕ → List ℕ
  text_or none default_value = default_value
  text_or (some value) default_value = value

  unfoldable pub get_env_or_default : String → List ℕ → List ℕ
  unfolding get_env text_or
  get_env_or_default name default_value = text_or (get_env name) default_value

  -- `CreateDefault`, up to the construction.
  unfoldable pub default_config : Config
  default_config = record {
    db = record {
      address = get_env_or_default "ZEM_DB_ADDRESS" (codes "127.0.0.1");
      port = get_env_or_default "ZEM_DB_PORT" (codes "5432");
      name = get_env_or_default "ZEM_DB_NAME" (codes "wms_db");
      user = get_env_or_default "ZEM_DB_USER" (codes "wms_manager");
      password = get_env_or_default "ZEM_DB_PASSWORD" (codes "kyungjoon_1997");
    };
    port = get_env_or_default_port "ZEM_PORT" 47213;
    db_pool_size = get_env_or_default_size "ZEM_DB_POOL_SIZE" 0;
    db_thread_count = get_env_or_default_size "ZEM_DB_THREAD_COUNT" 0;
  }
