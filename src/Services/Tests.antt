-- ===== src/Services/Tests.antt =====
-- Concrete inputs for the theorems of the services.
use vaultwarden_hummingbird.Base.{true, false, none, some, List, [], ◌∷◌, ◌≡◌, All, Option}
use vaultwarden_hummingbird.Text.{Str, codes}
use vaultwarden_hummingbird.Config.Knobs.{is_supervisor_key}
use vaultwarden_hummingbird.Config.Dotenv.{FileConfig, Item, pair, load_from, load_from-IsRouted}
use vaultwarden_hummingbird.Services.Grant.{
  granted_env, IsPinned, granted_env-IsPinned, granted_env-AllChild,
}

abbrev ambient : List (Option Str × Str)
ambient =
    (some (codes "VAULTWARDEN_ROCKET_ADDRESS"), codes "0.0.0.0")
    ∷ (some (codes "SUPERVISOR_S3_SECRET_ACCESS_KEY"), codes "secret")
    ∷ (some (codes "VAULTWARDEN_TAILSCALE_AUTHKEY"), codes "key")
    ∷ (none, codes "x")
    ∷ []

granted_env-IsPinned_example :
    IsPinned
      (granted_env ambient ((codes "ROCKET_PORT", codes "1") ∷ []) (codes "8081") false)
      (codes "8081")
granted_env-IsPinned_example =
    granted_env-IsPinned ambient ((codes "ROCKET_PORT", codes "1") ∷ []) (codes "8081") false

abbrev items : Str → List Item
items text = pair (codes "VAULTWARDEN_DOMAIN") text ∷ pair (codes "TAILSCALE_AUTHKEY") text ∷ []

abbrev file : FileConfig
file = load_from items (some (some (codes "v")))

granted_env-AllChild_example :
    All (λ p. is_supervisor_key p.0 ≡ false) (granted_env ambient file.child (codes "8081") true)
granted_env-AllChild_example =
    granted_env-AllChild ambient file (codes "8081") true
      (load_from-IsRouted items (some (some (codes "v"))))
