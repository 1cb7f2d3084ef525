-- ===== src/Gate/Server.antt =====
-- supervisor/src/runtime/gate/server.rs and liveness.rs: one request, its verdict and the cached probe.
-- The clock, read before the check and again behind a probe, and the probe's result are inputs; times
-- are counted in some unit, `ttl` in the same one.
use vaultwarden_hummingbird.Base.{
  ℕ, ◌+◌, ◌-◌, ◌≤◌, ◌<◌, Bool, true, false, ◌&&◌, Option, none, some, List, [], ◌∷◌, ◌++◌, ◌≡◌, ltb,
  ◌==◌, if◌then◌else◌, length, take, ◌⊎◌,
}
use vaultwarden_hummingbird.Text.{Str, codes, str_eq, lines, trim, split_whitespace, split_once}
use vaultwarden_hummingbird.Text.Utf8.{from_utf8}
use vaultwarden_hummingbird.Config.Resolve.{split_scheme}
use vaultwarden_hummingbird.Config.Knobs.{unwrap_or}

abbrev first_line : List Str → Str
first_line [] = []
first_line (l ∷ ls) = l

unfoldable pub line_of : List ℕ → Str
unfolding from_utf8 lines trim
line_of bytes = trim (first_line (lines (unwrap_or (from_utf8 bytes) [])))

-- The rest from the first "/" on.
unfoldable pub from_slash : Str → Str
from_slash [] = []
from_slash (c ∷ s) = let rest = from_slash s in if c == b'/' then c ∷ s else rest

abbrev path_in : Str → Option (Str × Str) → Str
path_in target none = target
path_in target (some (scheme, rest)) = from_slash rest

unfoldable pub target_path : Str → Str
unfolding split_scheme from_slash
target_path target = path_in target (split_scheme target)

-- `split('?').next()`.
abbrev before_query : Str → Str
before_query s = elim (split_once b'?' s) [ none ↦ s | some (path, query) ↦ path ]

abbrev asks_alive : List Str → Bool
asks_alive (method ∷ target ∷ rest) =
    str_eq method (codes "GET") && str_eq (before_query (target_path target)) (codes "/alive")
asks_alive _ = false

unfoldable pub is_alive_request : Str → Bool
unfolding split_whitespace target_path split_once str_eq
is_alive_request line = asks_alive (split_whitespace line)

-- What one read of the socket brings: some bytes, at least one, or the end of the input, or the end of
-- the time budget, or an error.
pub data Read : Type 0 where
  bytes : List ℕ → Read
  end_of_input timed_out failed : Read

abbrev pub request_cap : ℕ
request_cap = 2048

-- The bytes before the first line break, if there is one.
unfoldable pub first_break : List ℕ → Option (List ℕ)
first_break [] = none
first_break (b ∷ s) =
    let rest = first_break s in
    if b == b'\n' then some [] else elim rest [ none ↦ none | some l ↦ some (b ∷ l) ]

abbrev on_break : Option Str → Option (List ℕ) → Option Str
on_break more none = more
on_break more (some l) = some (line_of l)

-- The request's first line; none for a dead socket. A head that is too long or too late is an empty
-- line.
abbrev or_more : List ℕ → Option Str → Option Str
or_more buf more = on_break (if length buf == request_cap then some [] else more) (first_break buf)

unfoldable pub read_head : List ℕ → List Read → Option Str
unfolding first_break line_of
read_head buf [] = or_more buf (some [])
read_head buf (bytes s ∷ rs) =
    let more = read_head (buf ++ take (request_cap - length buf) s) rs in or_more buf more
read_head buf (end_of_input ∷ rs) = or_more buf (some (line_of buf))
read_head buf (timed_out ∷ rs) = or_more buf (some [])
read_head buf (failed ∷ rs) = or_more buf none

-- The shared verdict: when it was taken, and what it was; and the probes made so far.
pub record Liveness : Type 0 where
  pub has_vault : Bool
  pub ttl : ℕ
  pub verdict : Option (ℕ × Bool)
  pub probes : ℕ

abbrev probe_now : Liveness → ℕ → Bool → Bool × Liveness
probe_now l stamp answer =
    let good = l.has_vault && answer in
    (
      good,
      record l { verdict = some (stamp, good); probes = l.probes + (if l.has_vault then 1 else 0) },
    )

-- `alive` at a time, with the time behind a probe and the answer that it would get.
abbrev alive_from : Liveness → ℕ → ℕ → Bool → Option (ℕ × Bool) → Bool × Liveness
alive_from l now stamp answer none = probe_now l stamp answer
alive_from l now stamp answer (some (at, good)) =
    if ltb (now - at) l.ttl then (good, l) else probe_now l stamp answer

unfoldable pub alive : Liveness → ℕ → ℕ → Bool → Bool × Liveness
alive l now stamp answer = alive_from l now stamp answer l.verdict

pub data Response : Type 0 where
  forbidden healthy unavailable : Response

abbrev verdict_response : Bool → Response
verdict_response true = healthy
verdict_response false = unavailable

abbrev respond_alive : Bool × Liveness → Response × Liveness
respond_alive (good, l) = (verdict_response good, l)

unfoldable pub handle : Liveness → ℕ → ℕ → Bool → Option Str → Option Response × Liveness
unfolding is_alive_request alive
handle l now stamp answer none = (none, l)
handle l now stamp answer (some line) =
    if is_alive_request line
    then (let r = respond_alive (alive l now stamp answer) in (some r.0, r.1))
    else (some forbidden, l)

-- A verdict that is answered at `now`: it is cached, was taken within the window, and a probe was
-- only made if the verdict before was older.
pub record IsCurrent (l : Liveness) (now : ℕ) (r : Bool × Liveness) : Type 0 where
  pub taken : (at : ℕ) × (r.1.verdict ≡ some (at, r.0)) × (now < at + l.ttl)
  pub probes :
      (r.1.probes ≡ l.probes)
      ⊎ ((at : ℕ) (good : Bool) → l.verdict ≡ some (at, good) → at + l.ttl ≤ now)

-- A request that asks for "/alive": GET, and a target whose path is that, whatever the query.
abbrev pub AsksAlive : Str → Type 0
AsksAlive line =
    (target : Str) × (rest : List Str) × (split_whitespace line ≡ codes "GET" ∷ target ∷ rest)
    × (before_query (target_path target) ≡ codes "/alive")

-- How one request ends: no answer on a dead socket, 403 for what does not ask for "/alive", both
-- without a probe and with the cached verdict as it was; and otherwise 200 or 503 by a verdict that is
-- current.
pub data Handled (l : Liveness) (now : ℕ) : Option Str → Option Response × Liveness → Type 0 where
  dead : Handled l now none (none, l)
  denied : (line : Str) → ¬ (AsksAlive line) → Handled l now (some line) (some forbidden, l)
  judged :
      (line : Str) (good : Bool) (l' : Liveness)
      → AsksAlive line
      → IsCurrent l now (good, l')
      → Handled l now (some line) (some (if good then healthy else unavailable), l')
