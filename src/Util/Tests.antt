-- ===== src/Util/Tests.antt =====
-- Concrete inputs for the theorems on the helpers.
use vaultwarden_hummingbird.Base.{[], ◌∷◌, ◌≡◌, arith}
use vaultwarden_hummingbird.Util.Hash.{IsHex, unhex, hex, hex-IsHex}

hex-IsHex_example : IsHex 4 (hex (186 ∷ 7 ∷ [])) × (unhex (hex (186 ∷ 7 ∷ [])) ≡ 186 ∷ 7 ∷ [])
hex-IsHex_example = hex-IsHex (186 ∷ 7 ∷ []) (omega arith, (omega arith, tt))
