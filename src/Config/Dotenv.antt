-- ===== src/Config/Dotenv.antt =====
-- supervisor/src/config/dotenv.rs: the strict dotenv file. The `dotenvy` crate is not in the
-- repository: `entries` says what its iterator yields for a text.
use vaultwarden_hummingbird.Base.{
  Bool, true, false, Option, none, some, List, [], ◌∷◌, ◌++◌, ◌≡◌, ◌≢◌, refl, All, if◌then◌else◌,
  Bool-cases, inl, inr,
}
use vaultwarden_hummingbird.Text.{Str, strip_prefix, str_eq, str_lt}
use vaultwarden_hummingbird.BTree.{BTreeMap, insert}
use vaultwarden_hummingbird.Config.Schema.{FilePolicy, file, legacy, process_only, file_policy}
use vaultwarden_hummingbird.Config.Knobs.{
  is_supervisor_key, is_supervisor_consumed, vaultwarden_key, unwrap_or,
}

pub record FileConfig : Type 0 where
  pub knobs : BTreeMap Str
  pub child : BTreeMap Str
  pub invalid : List Str
  pub fatal : Bool

abbrev pub no_file : FileConfig
no_file = record { knobs = []; child = []; invalid = []; fatal = false }

-- One step of the iterator: a pair, or an error that is only logged.
pub data Item : Type 0 where
  pair : Str → Str → Item
  skipped : Item

abbrev reject : Str → FileConfig → FileConfig
reject k cfg = record cfg { invalid = cfg.invalid ++ k ∷ [] }

unfoldable pub route_knob : Str → Str → Option FilePolicy → FileConfig → FileConfig
unfolding insert
route_knob k v (some file) cfg = record cfg { knobs = insert k v cfg.knobs }
route_knob k v (some legacy) cfg = record cfg { knobs = insert k v cfg.knobs }
route_knob k v (some process_only) cfg = reject k cfg
route_knob k v none cfg = reject k cfg

unfoldable pub route_child : Str → Str → Option Str → FileConfig → FileConfig
unfolding insert is_supervisor_key
route_child k v none cfg = reject k cfg
route_child k v (some stripped) cfg =
    if is_supervisor_key stripped
    then reject k cfg
    else record cfg { child = insert stripped v cfg.child }

unfoldable pub route : Item → FileConfig → FileConfig
unfolding route_knob route_child is_supervisor_consumed file_policy vaultwarden_key
route skipped cfg = cfg
route (pair k v) cfg =
    if is_supervisor_consumed k
    then route_knob k v (file_policy k) cfg
    else route_child k v (vaultwarden_key k) cfg

unfoldable pub route_all : List Item → FileConfig → FileConfig
unfolding route
route_all [] cfg = cfg
route_all (i ∷ is) cfg = route_all is (route i cfg)

-- `load_from`, with the outcome of reading the file.
unfoldable pub load_from : (Str → List Item) → Option (Option Str) → FileConfig
unfolding route_all strip_prefix
load_from entries none = no_file
load_from entries (some none) = record no_file { fatal = true }
load_from entries (some (some raw)) =
    route_all (entries (unwrap_or (strip_prefix (0xfeff ∷ []) raw) raw)) no_file

-- What a file that was read gives the rest of the configuration.
pub record IsRouted (cfg : FileConfig) : Type 0 where
  -- no key of the supervisor's own namespaces reaches the child
  pub child_keys : All (λ p. is_supervisor_key p.0 ≡ false) cfg.child
  -- every knob is declared, and one that a file may set
  pub knob_keys :
      All (λ p. (file_policy p.0 ≢ none) × (file_policy p.0 ≢ some process_only)) cfg.knobs

pub All-insert :
    (P : Str → Type 0) (k v : Str) (m : BTreeMap Str)
    → P k
    → All (λ p. P p.0) m
    → All (λ p. P p.0) (insert k v m)
unfolding insert
All-insert P k v [] h a = (h, tt)
All-insert P k v ((j, w) ∷ m) h a = elim (Bool-cases (str_eq j k)) [
  | inl e ↦ rw e (h, a.1)
  | inr e ↦ elim (Bool-cases (str_lt k j)) [
    | inl f ↦ rw (e, f) (h, a)
    | inr f ↦ rw (e, f) (a.0, All-insert P k v m h a.1)
  ]
]

route_knob-IsRouted :
    (k v : Str) (p : Option FilePolicy) (cfg : FileConfig)
    → file_policy k ≡ p
    → IsRouted cfg
    → IsRouted (route_knob k v p cfg)
unfolding route_knob
route_knob-IsRouted k v (some file) cfg h r = record {
  child_keys = r.child_keys;
  knob_keys =
      All-insert (λ n. (file_policy n ≢ none) × (file_policy n ≢ some process_only)) k v cfg.knobs
        ((λ e. cc (h, e)), (λ e. cc (h, e))) r.knob_keys;
}
route_knob-IsRouted k v (some legacy) cfg h r = record {
  child_keys = r.child_keys;
  knob_keys =
      All-insert (λ n. (file_policy n ≢ none) × (file_policy n ≢ some process_only)) k v cfg.knobs
        ((λ e. cc (h, e)), (λ e. cc (h, e))) r.knob_keys;
}
route_knob-IsRouted k v (some process_only) cfg h r = record {
  child_keys = r.child_keys;
  knob_keys = r.knob_keys;
}
route_knob-IsRouted k v none cfg h r = record { child_keys = r.child_keys; knob_keys = r.knob_keys }

route_child-IsRouted :
    (k v : Str) (s : Option Str) (cfg : FileConfig)
    → IsRouted cfg
    → IsRouted (route_child k v s cfg)
unfolding route_child
route_child-IsRouted k v none cfg r = record { child_keys = r.child_keys; knob_keys = r.knob_keys }
route_child-IsRouted k v (some s) cfg r = elim (Bool-cases (is_supervisor_key s)) [
  | inl e ↦ rw e (record { child_keys = r.child_keys; knob_keys = r.knob_keys })
  | inr e ↦ rw e (record {
    child_keys = All-insert (λ n. is_supervisor_key n ≡ false) s v cfg.child e r.child_keys;
    knob_keys = r.knob_keys;
  })
]

route-IsRouted : (i : Item) (cfg : FileConfig) → IsRouted cfg → IsRouted (route i cfg)
unfolding route
route-IsRouted skipped cfg r = r
route-IsRouted (pair k v) cfg r = elim (Bool-cases (is_supervisor_consumed k)) [
  | inl e ↦ rw e (route_knob-IsRouted k v (file_policy k) cfg refl r)
  | inr e ↦ rw e (route_child-IsRouted k v (vaultwarden_key k) cfg r)
]

route_all-IsRouted :
    (is : List Item) (cfg : FileConfig) → IsRouted cfg → IsRouted (route_all is cfg)
unfolding route_all
route_all-IsRouted [] cfg r = r
route_all-IsRouted (i ∷ is) cfg r = route_all-IsRouted is (route i cfg) (route-IsRouted i cfg r)

-- Whatever the file holds, no key that starts with TAILSCALE_ or SUPERVISOR_ is among the
-- child's, and every knob taken from it is declared and is not one that only the process
-- environment may set.
pub load_from-IsRouted :
    (entries : Str → List Item) (raw : Option (Option Str)) → IsRouted (load_from entries raw)
unfolding load_from
load_from-IsRouted entries none = record { child_keys = tt; knob_keys = tt }
load_from-IsRouted entries (some none) = record { child_keys = tt; knob_keys = tt }
load_from-IsRouted entries (some (some raw)) =
    route_all-IsRouted (entries (unwrap_or (strip_prefix (0xfeff ∷ []) raw) raw)) no_file
      (record { child_keys = tt; knob_keys = tt })
