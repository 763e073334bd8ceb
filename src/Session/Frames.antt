-- ===== src/Session/Frames.antt =====
-- A frame as the protocol lays it out (Service/Protocol.hpp), beside the item that `SendFrame` makes.
use zem.Base.{
  ℕ, ◌≤◌, ◌%◌, ◌^◌, ◌≡◌, refl, ap, ◌∙◌, Option, none, some, List, [], ◌∷◌, ◌++◌, ◌==◌,
  if◌then◌else◌, false, arith, length,
}
use zem.Protocol.{BigEndian, TcpServiceType, to_code, header_bytes}
use zem.Session.State.{max_body_size}
use zem.Session.Send.{size_of_body, make_item}
use zem.Session.Batch.{frame_bytes, body_bytes}

-- The code of the type in four bytes, the length of the body in four, the version in two, and the body.
abbrev pub wire_frame : BigEndian → TcpServiceType → List ℕ → ℕ → List ℕ
wire_frame e type body version =
    (e.store 4 (to_code type % 2 ^ 32) ++ (e.store 4 (length body) ++ e.store 2 (version % 2 ^ 16)))
    ++ body

-- Within the limit of a body nothing is cut off its length.
pub frame_bytes-make_item :
    (e : BigEndian) (type : TcpServiceType) (body : Option (List ℕ)) (version : ℕ)
    → size_of_body body ≤ max_body_size
    → frame_bytes (make_item e type body version) ≡ wire_frame e type (body_bytes body) version
unfolding make_item size_of_body header_bytes
frame_bytes-make_item e type none version small = refl
frame_bytes-make_item e type (some []) version small = refl
frame_bytes-make_item e type (some (b ∷ bs)) version small =
    ap (λ n. header n ++ body_bytes (if length (b ∷ bs) == 0 then none else some (b ∷ bs))) size
    ∙ ap (λ c. header (length (b ∷ bs)) ++ body_bytes (if c then none else some (b ∷ bs))) some_body
  where
    header : ℕ → List ℕ
    header n = e.store 4 (to_code type % 2 ^ 32) ++ (e.store 4 n ++ e.store 2 (version % 2 ^ 16))

    size : length (b ∷ bs) % 2 ^ 32 ≡ length (b ∷ bs)
    size = omega arith

    some_body : (length (b ∷ bs) == 0) ≡ false
    some_body = ground arith
