-- ===== src/Config/Merge.antt =====
-- supervisor/src/config/env/merge.rs: the process environment, the dotenv file and the defaults,
-- merged into one configuration. `lookup` reads the process environment.
use vaultwarden_hummingbird.Base.{
  ℕ, ◌+◌, Bool, true, false, not, ◌&&◌, ◌||◌, Option, none, some, List, [], ◌∷◌, ◌≡◌, ◌≢◌, refl,
  ◌⊎◌, inl, inr, arith, any, ltb, if◌then◌else◌, Bool-cases,
}
use vaultwarden_hummingbird.Text.{Str, codes, str_eq, starts_with, parse_uint, scan, scan_some}
use vaultwarden_hummingbird.Text.Decimal.{to_decimal}
use vaultwarden_hummingbird.BTree.{get}
use vaultwarden_hummingbird.Config.Spec.{SyncConfig, DbBackupConfig, set_state_file}
use vaultwarden_hummingbird.Config.Schema.{Default, string, boolean, find_knob, find_among}
use vaultwarden_hummingbird.Config.Knobs.{
  non_empty, unwrap_or, valid_port, port_of, is_port, u16_max, parse_flag, resolve_service,
}
use vaultwarden_hummingbird.Config.Dotenv.{FileConfig}
use vaultwarden_hummingbird.Config.Resolve.{resolve_sync, resolve_backup}
use vaultwarden_hummingbird.Config.Resolve.Bounds.{OnSome}

pub record Config : Type 0 where
  pub state : Str
  pub socket : Str
  pub port : Str
  pub vault_port : Option Str
  pub hostname : Str
  pub authkey : Option Str
  pub serve : Bool
  pub service : Option Str
  pub userspace : Bool
  pub sync : Option SyncConfig
  pub backup : Option DbBackupConfig
  pub vw_env : List (Str × Str)

abbrev pub or_else {ℓ} : {A : Type ℓ} → Option A → Option A → Option A
or_else (some a) o = some a
or_else none o = o

-- The declared defaults. The table gives each of the keys asked for a default of the right kind,
-- so that the source's `panic!` is not reached; it is the empty text and `false` here.
abbrev string_of : Option Default → Str
string_of (some (string s)) = s
string_of (some (boolean b)) = []
string_of none = []

abbrev boolean_of : Option Default → Bool
boolean_of (some (boolean b)) = b
boolean_of (some (string s)) = false
boolean_of none = false

unfoldable pub string_default : Str → Str
unfolding find_knob
string_default name = elim (find_knob name) [ none ↦ [] | some k ↦ string_of k.default ]

unfoldable pub bool_default : Str → Bool
unfolding find_knob
bool_default name = elim (find_knob name) [ none ↦ false | some k ↦ boolean_of k.default ]

abbrev is_some {ℓ} : {A : Type ℓ} → Option A → Bool
is_some none = false
is_some (some a) = true

abbrev is_nil {ℓ} : {A : Type ℓ} → List A → Bool
is_nil [] = true
is_nil (a ∷ l) = false

-- `checked_add(1)` on a `u16`.
abbrev pub next_port : Option ℕ → Option Str
next_port none = none
next_port (some p) = if ltb p u16_max then some (to_decimal (p + 1)) else none

abbrev with_state : Str → Option SyncConfig → Option SyncConfig
with_state state none = none
with_state state (some sync) = some (set_state_file sync state)

module _ (cfg : FileConfig) (lookup : Str → Option Str) where
  -- Process environment before file.
  unfoldable pub set_value : Str → Option Str
  unfolding get
  set_value key = or_else (non_empty (lookup key)) (non_empty (get key cfg.knobs))

  unfoldable pub knob : Str → Str → Str
  unfolding set_value
  knob key default = unwrap_or (set_value key) default

  unfoldable pub value : Str → Str
  unfolding set_value string_default
  value key = unwrap_or (set_value key) (string_default key)

  unfoldable pub flag : Str → Bool
  unfolding set_value bool_default parse_flag
  flag key = parse_flag (unwrap_or (set_value key) []) (bool_default key)

  -- What refuses the boot before anything is resolved.
  unfoldable pub is_refused : Bool
  unfolding get str_eq
  is_refused =
      cfg.fatal
      || is_some (non_empty (lookup (codes "VAULTWARDEN_ROCKET_PORT")))
      || is_some (non_empty (get (codes "VAULTWARDEN_ROCKET_PORT") cfg.knobs))
      || any (λ k. str_eq k (codes "ROCKET_PORT")) cfg.invalid
      || not (is_nil cfg.invalid)

  unfoldable pub port : Str
  unfolding valid_port get string_default
  port =
      unwrap_or
        (or_else (valid_port (lookup (codes "VAULTWARDEN_PORT")))
          (valid_port (get (codes "VAULTWARDEN_PORT") cfg.knobs)))
        (string_default (codes "VAULTWARDEN_PORT"))

  unfoldable pub db_url : Option Str
  unfolding get
  db_url =
      or_else (non_empty (lookup (codes "VAULTWARDEN_DATABASE_URL")))
        (non_empty (get (codes "DATABASE_URL") cfg.child))

  unfoldable pub is_absolute : Str → Bool
  unfolding str_eq starts_with
  is_absolute state = str_eq state (codes "mem:") || starts_with (codes "/") state

  unfoldable pub assemble : Option SyncConfig → Option Str → Str → Config
  unfolding port parse_uint value flag resolve_service set_value resolve_backup knob db_url
      set_state_file to_decimal
  assemble sync authkey state = record {
    state = state;
    socket = value (codes "TAILSCALE_SOCKET");
    port = port;
    vault_port = next_port (parse_uint u16_max port);
    hostname = value (codes "TAILSCALE_HOSTNAME");
    authkey = authkey;
    serve = flag (codes "TAILSCALE_SERVE");
    service = resolve_service (set_value (codes "TAILSCALE_SERVICE"));
    userspace = flag (codes "TAILSCALE_USERSPACE");
    sync = with_state state sync;
    backup = resolve_backup knob sync db_url;
    vw_env = cfg.child;
  }

  unfoldable pub build_with : Option SyncConfig → Option Str → Str → Option Config
  unfolding assemble is_absolute
  build_with sync authkey state =
      if not (is_some authkey) && not (is_some sync)
      then none
      else if not (is_absolute state)
      then none
      else some (assemble sync authkey state)

  unfoldable pub build : Option Config
  unfolding is_refused build_with resolve_sync knob value
  build =
      if is_refused
      then none
      else build_with (resolve_sync knob) (non_empty (some (knob (codes "TAILSCALE_AUTHKEY") [])))
          (value (codes "TAILSCALE_STATE_FILE"))

  -- What holds of a configuration that the boot goes on with.
  pub record IsBootable (c : Config) : Type 0 where
    -- the file was readable, and held no key that is not accepted
    pub readable : cfg.fatal ≡ false
    pub no_invalid : cfg.invalid ≡ []
    -- the node can join the tailnet
    pub identity : (c.authkey ≢ none) ⊎ (c.sync ≢ none)
    pub state : is_absolute c.state ≡ true
    -- the exposed port is a port, and the vault's is the next one
    pub port : is_port (parse_uint u16_max c.port) ≡ true
    pub vault_port : c.vault_port ≡ next_port (parse_uint u16_max c.port)

  port_of-IsPort :
      (o : Option Str) → OnSome (λ v. is_port (parse_uint u16_max v) ≡ true) (port_of o)
  port_of-IsPort none = tt
  port_of-IsPort (some v) = elim (Bool-cases (is_port (parse_uint u16_max v))) [
    | inl e ↦ rw e e
    | inr e ↦ rw e tt
  ]

  first_of :
      (P : Str → Type 0) (a b : Option Str) (d : Str)
      → OnSome P a
      → OnSome P b
      → P d
      → P (unwrap_or (or_else a b) d)
  first_of P (some v) b d p q r = p
  first_of P none (some v) d p q r = q
  first_of P none none d p q r = r

  default-IsPort : is_port (parse_uint u16_max (string_default (codes "VAULTWARDEN_PORT"))) ≡ true
  unfolding string_default find_knob find_among str_eq parse_uint scan_some scan
  default-IsPort = refl

  port-IsPort : is_port (parse_uint u16_max port) ≡ true
  unfolding port valid_port
  port-IsPort =
      first_of (λ v. is_port (parse_uint u16_max v) ≡ true)
        (valid_port (lookup (codes "VAULTWARDEN_PORT")))
        (valid_port (get (codes "VAULTWARDEN_PORT") cfg.knobs))
        (string_default (codes "VAULTWARDEN_PORT"))
        (port_of-IsPort (non_empty (lookup (codes "VAULTWARDEN_PORT"))))
        (port_of-IsPort (non_empty (get (codes "VAULTWARDEN_PORT") cfg.knobs))) default-IsPort

  is_nil-nil : (l : List Str) → not (is_nil l) ≡ false → l ≡ []
  is_nil-nil [] h = refl
  is_nil-nil (a ∷ l) h = cc h

  -- The two tests that come first, from the whole disjunction.
  accepted : is_refused ≡ false → (cfg.fatal ≡ false) × (cfg.invalid ≡ [])
  unfolding is_refused
  accepted h = (ground (arith, h), is_nil-nil cfg.invalid (ground (arith, h)))

  identity_of :
      (sync : Option SyncConfig) (authkey : Option Str) (state : Str)
      → (not (is_some authkey) && not (is_some sync)) ≡ false
      → (authkey ≢ none) ⊎ (with_state state sync ≢ none)
  identity_of (some s) a state h = inr (λ e. cc e)
  identity_of none (some a) state h = inl (λ e. cc e)
  identity_of none none state h = cc h

  build_with-IsBootable :
      (sync : Option SyncConfig) (authkey : Option Str) (state : Str)
      → is_refused ≡ false
      → OnSome IsBootable (build_with sync authkey state)
  unfolding build_with
  build_with-IsBootable sync authkey state r =
      elim (Bool-cases (not (is_some authkey) && not (is_some sync))) [
        | inl e ↦ rw e tt
        | inr e ↦ elim (Bool-cases (is_absolute state)) [
          | inr f ↦ rw (e, f) tt
          | inl f ↦
              rw (e, f)
                (unfold assemble in
                  record {
                    readable = (accepted r).0;
                    no_invalid = (accepted r).1;
                    identity = identity_of sync authkey state e;
                    state = f;
                    port = port-IsPort;
                    vault_port = refl;
                  })
        ]
      ]

-- Whatever the process environment and the dotenv file hold, a configuration is only built from a
-- readable file without unaccepted keys, with an authkey or state sync, with a state file that is
-- absolute or "mem:", and with an exposed port between 1 and 65535; the vault's port is the next
-- one, and there is none after 65535.
pub build-IsBootable :
    (cfg : FileConfig) (lookup : Str → Option Str)
    → OnSome (IsBootable cfg lookup) (build cfg lookup)
unfolding build
build-IsBootable cfg lookup = elim (Bool-cases (is_refused cfg lookup)) [
  | inl e ↦ rw e tt
  | inr e ↦ rw e (
      build_with-IsBootable cfg lookup (resolve_sync (knob cfg lookup))
        (non_empty (some (knob cfg lookup (codes "TAILSCALE_AUTHKEY") [])))
        (value cfg lookup (codes "TAILSCALE_STATE_FILE")) e)
]
