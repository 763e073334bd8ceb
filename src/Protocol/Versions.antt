-- ===== src/Protocol/Versions.antt =====
-- Which requests the version check lets through.
use zem.Base.{ℕ, ◌≡◌, ◌⊎◌, ◌↔◌, inl, inr, refl, true, arith}
use zem.Protocol.{TcpServiceType, ping, pong, login, receiving, type_cnt, unlisted}
use zem.Protocol.ApiVersion.{v1, is_supported_for}

-- Exactly the enumerators before `TypeCnt` are served, and exactly at version 1.
pub is_supported_for_iff :
    (t : TcpServiceType) (version : ℕ)
    → (is_supported_for t version ≡ true)
      ↔ ((version ≡ v1) × ((t ≡ ping) ⊎ (t ≡ pong) ⊎ (t ≡ login) ⊎ (t ≡ receiving)))
unfolding is_supported_for
is_supported_for_iff ping version = (λ h. (ground arith, inl refl), λ h. ground arith)
is_supported_for_iff pong version = (λ h. (ground arith, inr (inl refl)), λ h. ground arith)
is_supported_for_iff login version = (λ h. (ground arith, inr (inr (inl refl))), λ h. ground arith)
is_supported_for_iff receiving version =
    (λ h. (ground arith, inr (inr (inr refl))), λ h. ground arith)
is_supported_for_iff type_cnt version = (λ h. ground arith, λ h. ground arith)
is_supported_for_iff (unlisted n) version = (λ h. ground arith, λ h. ground arith)
