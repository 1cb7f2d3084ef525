-- ===== src/Config/Schema.antt =====
-- supervisor/src/config/env/schema.rs: the table of the supervisor's keys.
use vaultwarden_hummingbird.Base.{
  Bool, true, false, ◌&&◌, Option, none, some, List, [], ◌∷◌, if◌then◌else◌,
}
use vaultwarden_hummingbird.Text.{Str, codes, str_eq, starts_with}

pub data FilePolicy : Type 0 where
  file legacy process_only : FilePolicy

pub data Default : Type 0 where
  string : Str → Default
  boolean : Bool → Default

pub record Knob : Type 0 where
  pub name : Str
  pub policy : FilePolicy
  pub default : Option Default

abbrev knob : Str → FilePolicy → Option Default → Knob
knob name policy default = record { name = name; policy = policy; default = default }

abbrev pub knobs : List Knob
knobs =
    knob (codes "TAILSCALE_AUTHKEY") file none
    ∷ knob (codes "TAILSCALE_STATE_FILE") file (some (string (codes "/data/tailscaled.state")))
    ∷ knob (codes "TAILSCALE_SOCKET") file (some (string (codes "/tmp/tailscaled.sock")))
    ∷ knob (codes "TAILSCALE_HOSTNAME") file (some (string (codes "vaultwarden-hummingbird")))
    ∷ knob (codes "TAILSCALE_SERVE") file (some (boolean true))
    ∷ knob (codes "TAILSCALE_SERVICE") file none
    ∷ knob (codes "TAILSCALE_USERSPACE") file (some (boolean true))
    ∷ knob (codes "VAULTWARDEN_PORT") file (some (string (codes "8080")))
    ∷ knob (codes "VAULTWARDEN_ROCKET_PORT") legacy none
    ∷ knob (codes "SUPERVISOR_ENV_FILE") process_only none
    ∷ knob (codes "SUPERVISOR_DB_BACKUP") file none
    ∷ knob (codes "SUPERVISOR_DB_BACKUP_INTERVAL") file none
    ∷ knob (codes "SUPERVISOR_DB_BACKUP_KEEP") file none
    ∷ knob (codes "SUPERVISOR_DB_BACKUP_RESTORE") file none
    ∷ knob (codes "SUPERVISOR_S3_REMOTE") file none
    ∷ knob (codes "SUPERVISOR_S3_ACCESS_KEY_ID") file none
    ∷ knob (codes "SUPERVISOR_S3_SECRET_ACCESS_KEY") file none
    ∷ knob (codes "SUPERVISOR_S3_ENDPOINT") file none
    ∷ knob (codes "SUPERVISOR_S3_SYNC_INTERVAL") file none
    ∷ []

unfoldable pub find_among : Str → List Knob → Option Knob
unfolding str_eq
find_among name [] = none
find_among name (k ∷ ks) = if str_eq k.name name then some k else find_among name ks

unfoldable pub find_knob : Str → Option Knob
unfolding find_among
find_knob name = find_among name knobs

unfoldable pub file_policy : Str → Option FilePolicy
unfolding find_knob
file_policy name = elim (find_knob name) [ none ↦ none | some k ↦ some k.policy ]

unfoldable pub consumed_child_key : Str → Bool
unfolding find_knob starts_with
consumed_child_key name =
    starts_with (codes "VAULTWARDEN_") name
    && elim (find_knob name) [ none ↦ false | some k ↦ true ]
