-- ===== src/Config/Knobs.antt =====
-- supervisor/src/config/env/knobs.rs: the parsers of single knobs. What they log is left out.
use vaultwarden_hummingbird.Base.{
  ℕ, ◌^◌, ◌-◌, Bool, true, false, ◌||◌, Option, none, some, List, [], ◌∷◌, ◌++◌, any, ltb,
  if◌then◌else◌,
}
use vaultwarden_hummingbird.Text.{
  Str, codes, str_eq, is_empty, starts_with, strip_prefix, ascii_lower, parse_uint,
}
use vaultwarden_hummingbird.Config.Schema.{consumed_child_key}

unfoldable pub is_supervisor_key : Str → Bool
unfolding starts_with
is_supervisor_key key =
    starts_with (codes "TAILSCALE_") key || starts_with (codes "SUPERVISOR_") key

unfoldable pub is_supervisor_consumed : Str → Bool
unfolding is_supervisor_key consumed_child_key
is_supervisor_consumed key = is_supervisor_key key || consumed_child_key key

abbrev pub non_empty : Option Str → Option Str
non_empty none = none
non_empty (some v) = if is_empty v then none else some v

unfoldable pub vaultwarden_key : Str → Option Str
unfolding strip_prefix
vaultwarden_key key = non_empty (strip_prefix (codes "VAULTWARDEN_") key)

abbrev pub u16_max : ℕ
u16_max = 2 ^ 16 - 1

abbrev pub is_port : Option ℕ → Bool
is_port none = false
is_port (some p) = ltb 0 p

abbrev pub port_of : Option Str → Option Str
port_of none = none
port_of (some v) = if is_port (parse_uint u16_max v) then some v else none

unfoldable pub valid_port : Option Str → Option Str
unfolding parse_uint
valid_port v = port_of (non_empty v)

abbrev one_of : List Str → Str → Bool
one_of words v = any (λ w. str_eq w v) words

unfoldable pub parse_bool : Str → Option Bool
unfolding ascii_lower str_eq
parse_bool v =
    if one_of (codes "true" ∷ codes "1" ∷ codes "yes" ∷ codes "on" ∷ []) (ascii_lower v)
    then some true
    else if one_of (codes "false" ∷ codes "0" ∷ codes "no" ∷ codes "off" ∷ []) (ascii_lower v)
    then some false
    else none

abbrev pub unwrap_or {ℓ} : {A : Type ℓ} → Option A → A → A
unwrap_or none d = d
unwrap_or (some a) d = a

unfoldable pub parse_flag : Str → Bool → Bool
unfolding parse_bool
parse_flag raw default = if is_empty raw then default else unwrap_or (parse_bool raw) default

unfoldable pub parse_count : ℕ → Str → ℕ → ℕ
unfolding parse_uint
parse_count top raw default =
    if is_empty raw then default else unwrap_or (parse_uint top raw) default

abbrev service_of : Option Str → Option Str
service_of none = none
service_of (some v) =
    let name = unwrap_or (strip_prefix (codes "svc:") v) v in
    if is_empty name then none else some (codes "svc:" ++ name)

unfoldable pub resolve_service : Option Str → Option Str
unfolding strip_prefix
resolve_service v = service_of (non_empty v)
