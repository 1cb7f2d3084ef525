-- ===== src/Services/Grant.antt =====
-- supervisor/src/runtime/services/vaultwarden.rs and process/env.rs: the environment that the
-- vaultwarden child is granted. A key that is no UTF-8 is `none`.
use vaultwarden_hummingbird.Base.{
  Bool, true, false, Option, none, some, List, [], ◌∷◌, ◌≡◌, refl, All, if◌then◌else◌, Bool-cases,
  inl, inr,
}
use vaultwarden_hummingbird.Text.{Str, codes, is_empty, starts_with, str_eq}
use vaultwarden_hummingbird.BTree.{BTreeMap, get, insert, get-insert}
use vaultwarden_hummingbird.Config.Knobs.{
  is_supervisor_key, is_supervisor_consumed, vaultwarden_key,
}
use vaultwarden_hummingbird.Config.Dotenv.{FileConfig, IsRouted, All-insert}

-- `EnvGrant::layer` and `EnvGrant::pin`.
unfoldable pub layer : BTreeMap Str → List (Str × Str) → BTreeMap Str
unfolding insert
layer grant [] = grant
layer grant ((k, v) ∷ vars) = layer (insert k v grant) vars

unfoldable pub pin : BTreeMap Str → Str → Str → BTreeMap Str
unfolding insert
pin grant key value = insert key value grant

-- Whether the image has an index decides whether the web vault is turned off.
abbrev pub web_vault_flag : Bool → Option (Str × Str)
web_vault_flag true = none
web_vault_flag false = some (codes "WEB_VAULT_ENABLED", codes "false")

abbrev pub image_defaults : List (Str × Str)
image_defaults =
    (codes "ORG_ATTACHMENT_LIMIT", codes "0")
    ∷ (codes "USER_ATTACHMENT_LIMIT", codes "0")
    ∷ (codes "ORG_CREATION_USERS", codes "all")
    ∷ (codes "SIGNUPS_ALLOWED", codes "true")
    ∷ (codes "TZ", codes "UTC")
    ∷ (codes "ENABLE_DB_WAL", codes "true")
    ∷ []

abbrev unless_supervisor : Option Str → Option Str
unless_supervisor none = none
unless_supervisor (some stripped) = if is_supervisor_key stripped then none else some stripped

unfoldable pub ambient_key : Option Str → Option Str
unfolding is_supervisor_consumed is_supervisor_key vaultwarden_key
ambient_key none = none
ambient_key (some k) =
    if is_supervisor_consumed k then none else unless_supervisor (vaultwarden_key k)

unfoldable pub filled : List (Str × Str) → List (Str × Str)
filled [] = []
filled ((k, v) ∷ vars) = let rest = filled vars in if is_empty v then rest else (k, v) ∷ rest

abbrev keep_var : Option Str → Str → List (Str × Str) → List (Str × Str)
keep_var none v rest = rest
keep_var (some k) v rest = if is_empty v then rest else (k, v) ∷ rest

unfoldable pub forwarded : List (Option Str × Str) → List (Str × Str)
unfolding ambient_key
forwarded [] = []
forwarded ((k, v) ∷ vars) = keep_var (ambient_key k) v (forwarded vars)

abbrev pin_flag : BTreeMap Str → Option (Str × Str) → BTreeMap Str
pin_flag grant none = grant
pin_flag grant (some (k, v)) = pin grant k v

unfoldable pub granted_env : List (Option Str × Str) → List (Str × Str) → Str → Bool → BTreeMap Str
unfolding layer pin filled forwarded
granted_env ambient file vault_port has_index =
    let grant = layer (layer (layer [] image_defaults) (filled file)) (forwarded ambient) in
    let flagged = pin_flag grant (web_vault_flag has_index) in
    pin
      (pin
        (pin (pin flagged (codes "ROCKET_PORT") vault_port) (codes "ROCKET_ADDRESS")
          (codes "127.0.0.1"))
        (codes "DATA_FOLDER") (codes "/data"))
      (codes "WEB_VAULT_FOLDER") (codes "/web-vault")

-- The values that nothing in the environment or in the file can change.
pub record IsPinned (grant : BTreeMap Str) (vault_port : Str) : Type 0 where
  pub port : get (codes "ROCKET_PORT") grant ≡ some vault_port
  pub address : get (codes "ROCKET_ADDRESS") grant ≡ some (codes "127.0.0.1")
  pub folder : get (codes "DATA_FOLDER") grant ≡ some (codes "/data")
  pub web_vault : get (codes "WEB_VAULT_FOLDER") grant ≡ some (codes "/web-vault")

-- The child's own port, its loopback address and its two folders are what the supervisor pins,
-- whatever the container's environment and the dotenv file say.
pub granted_env-IsPinned :
    (ambient : List (Option Str × Str)) (file : List (Str × Str)) (vault_port : Str)
    (has_index : Bool)
    → IsPinned (granted_env ambient file vault_port has_index) vault_port
unfolding granted_env pin str_eq
granted_env-IsPinned ambient file vault_port has_index = record {
  port = rw (get-insert, get-insert, get-insert, get-insert) refl;
  address = rw (get-insert, get-insert, get-insert) refl;
  folder = rw (get-insert, get-insert) refl;
  web_vault = rw get-insert refl;
}

abbrev IsChildKey : Str → Type 0
IsChildKey k = is_supervisor_key k ≡ false

abbrev AllChild : List (Str × Str) → Type 0
AllChild = All (λ p. IsChildKey p.0)

layer-AllChild :
    (grant : BTreeMap Str) (vars : List (Str × Str))
    → AllChild grant
    → AllChild vars
    → AllChild (layer grant vars)
unfolding layer
layer-AllChild grant [] g a = g
layer-AllChild grant ((k, v) ∷ vars) g a =
    layer-AllChild (insert k v grant) vars (All-insert IsChildKey k v grant a.0 g) a.1

if-AllChild :
    (b : Bool) (k v : Str) (rest : List (Str × Str))
    → IsChildKey k
    → AllChild rest
    → AllChild (if b then rest else (k, v) ∷ rest)
if-AllChild true k v rest h a = a
if-AllChild false k v rest h a = (h, a)

filled-AllChild : (vars : List (Str × Str)) → AllChild vars → AllChild (filled vars)
unfolding filled
filled-AllChild [] a = tt
filled-AllChild ((k, v) ∷ vars) a =
    if-AllChild (is_empty v) k v (filled vars) a.0 (filled-AllChild vars a.1)

unless_supervisor_sound : (o : Option Str) {k : Str} → unless_supervisor o ≡ some k → IsChildKey k
unless_supervisor_sound none h = cc h
unless_supervisor_sound (some s) {k} h = elim (Bool-cases (is_supervisor_key s)) [
  | inl e ↦ cc (rw e at h)
  | inr e ↦ cc (e, rw e at h)
]

ambient_key_sound : (o : Option Str) {k : Str} → ambient_key o ≡ some k → IsChildKey k
unfolding ambient_key
ambient_key_sound none h = cc h
ambient_key_sound (some n) {k} h = elim (Bool-cases (is_supervisor_consumed n)) [
  | inl e ↦ cc (rw e at h)
  | inr e ↦ unless_supervisor_sound (vaultwarden_key n) {k = k} (rw e at h)
]

keep_var-AllChild :
    (o : Option Str) (v : Str) (rest : List (Str × Str))
    → ((k : Str) → o ≡ some k → IsChildKey k)
    → AllChild rest
    → AllChild (keep_var o v rest)
keep_var-AllChild none v rest h a = a
keep_var-AllChild (some k) v rest h a = if-AllChild (is_empty v) k v rest (h k refl) a

forwarded-AllChild : (ambient : List (Option Str × Str)) → AllChild (forwarded ambient)
unfolding forwarded
forwarded-AllChild [] = tt
forwarded-AllChild ((k, v) ∷ vars) =
    keep_var-AllChild (ambient_key k) v (forwarded vars) (λ n e. ambient_key_sound k {k = n} e)
      (forwarded-AllChild vars)

image_defaults-AllChild : AllChild image_defaults
unfolding is_supervisor_key starts_with
image_defaults-AllChild = (refl, (refl, (refl, (refl, (refl, (refl, tt))))))

pin-AllChild :
    (grant : BTreeMap Str) (k v : Str) → IsChildKey k → AllChild grant → AllChild (pin grant k v)
unfolding pin
pin-AllChild grant k v h a = All-insert IsChildKey k v grant h a

pin_flag-AllChild :
    (grant : BTreeMap Str) (b : Bool)
    → AllChild grant
    → AllChild (pin_flag grant (web_vault_flag b))
pin_flag-AllChild grant true a = a
pin_flag-AllChild grant false a =
    pin-AllChild grant (codes "WEB_VAULT_ENABLED") (codes "false")
      (unfold is_supervisor_key in unfold starts_with in refl) a

-- From any container environment, and from a dotenv file whose keys were routed by the strict
-- loader, no key that starts with TAILSCALE_ or SUPERVISOR_ is granted to the child.
pub granted_env-AllChild :
    (ambient : List (Option Str × Str)) (file : FileConfig) (vault_port : Str) (has_index : Bool)
    → IsRouted file
    → All (λ p. is_supervisor_key p.0 ≡ false) (granted_env ambient file.child vault_port has_index)
unfolding granted_env is_supervisor_key starts_with
granted_env-AllChild ambient file vault_port has_index r = pin-AllChild _ _ _ refl (
    pin-AllChild _ _ _ refl (
      pin-AllChild _ _ _ refl (
        pin-AllChild _ _ _ refl (
          pin_flag-AllChild _ has_index (
            layer-AllChild _ (forwarded ambient)
              (layer-AllChild _ (filled file.child)
                (layer-AllChild [] image_defaults tt image_defaults-AllChild)
                (filled-AllChild file.child r.child_keys))
              (forwarded-AllChild ambient))))))
