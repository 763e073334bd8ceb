-- ===== src/Protocol/Header.antt =====
-- The ten bytes of a frame's header.
use zem.Base.{
  ℕ, zero, suc, ◌<◌, ◌≡◌, refl, sym, ap, ◌∙◌, List, ◌++◌, arith, length, take, drop, length-append,
  take-append, drop-append, append_assoc,
}
use zem.ByteCodec.Detail.{modulus}
use zem.Protocol.{
  BigEndian, to_service_type, to_code, TcpHeaderConv, header_size, header_bytes, header_of_bytes,
}

-- A cast from a code to the enum and back loses nothing, enumerator or not.
pub to_code-to_service_type : (n : ℕ) → to_code (to_service_type n) ≡ n
unfolding to_code to_service_type
to_code-to_service_type zero = refl
to_code-to_service_type (suc zero) = refl
to_code-to_service_type (suc (suc zero)) = refl
to_code-to_service_type (suc (suc (suc zero))) = refl
to_code-to_service_type (suc (suc (suc (suc zero)))) = refl
to_code-to_service_type (suc (suc (suc (suc (suc n))))) = omega arith

-- The fields fit their types.
pub record Fits (h : TcpHeaderConv) : Type 0 where
  pub service_type : h.service_type < modulus 4
  pub data_size : h.data_size < modulus 4
  pub api_version : h.api_version < modulus 2

take_first : (n : ℕ) (xs ys : List ℕ) → length xs ≡ n → take n (xs ++ ys) ≡ xs
take_first n xs ys h = ap (λ k. take k (xs ++ ys)) (sym h) ∙ take-append xs ys

drop_first : (n : ℕ) (xs ys : List ℕ) → length xs ≡ n → drop n (xs ++ ys) ≡ ys
drop_first n xs ys h = ap (λ k. drop k (xs ++ ys)) (sym h) ∙ drop-append xs ys

module _ (e : BigEndian) where
  pub length-header_bytes : (h : TcpHeaderConv) → length (header_bytes e h) ≡ header_size
  unfolding header_bytes
  length-header_bytes h = omega (
    arith,
    length-append (e.store 4 h.service_type) (e.store 4 h.data_size ++ e.store 2 h.api_version),
    length-append (e.store 4 h.data_size) (e.store 2 h.api_version),
    e.length-store 4 h.service_type,
    e.length-store 4 h.data_size,
    e.length-store 2 h.api_version,
  )

  -- The receiver of a header reads the fields that its sender put in.
  pub header_of_bytes-header_bytes :
      (h : TcpHeaderConv) → Fits h → header_of_bytes e (header_bytes e h) ≡ h
  unfolding header_of_bytes header_bytes
  header_of_bytes-header_bytes h f =
      λ i. record { service_type = service i; data_size = size i; api_version = version i }
    where
      a : List ℕ
      a = e.store 4 h.service_type

      b : List ℕ
      b = e.store 4 h.data_size

      c : List ℕ
      c = e.store 2 h.api_version

      service : e.load (take 4 (a ++ (b ++ c))) ≡ h.service_type
      service =
          ap e.load (take_first 4 a (b ++ c) (e.length-store 4 h.service_type))
          ∙ e.load-store 4 h.service_type f.service_type

      size : e.load (take 4 (drop 4 (a ++ (b ++ c)))) ≡ h.data_size
      size =
          ap (λ s. e.load (take 4 s)) (drop_first 4 a (b ++ c) (e.length-store 4 h.service_type))
          ∙ ap e.load (take_first 4 b c (e.length-store 4 h.data_size))
          ∙ e.load-store 4 h.data_size f.data_size

      ab : length (a ++ b) ≡ 8
      ab =
          omega (
            arith,
            length-append a b,
            e.length-store 4 h.service_type,
            e.length-store 4 h.data_size,
          )

      version : e.load (drop 8 (a ++ (b ++ c))) ≡ h.api_version
      version =
          ap (λ s. e.load (drop 8 s)) (sym (append_assoc a b c))
          ∙ ap e.load (drop_first 8 (a ++ b) c ab)
          ∙ e.load-store 2 h.api_version f.api_version
