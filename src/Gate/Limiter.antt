-- ===== src/Gate/Limiter.antt =====
-- supervisor/src/runtime/gate/limiter.rs and the accept loop of server.rs: handlers are admitted up to
-- a cap. The count of permits is the number of handlers that run.
use vaultwarden_hummingbird.Base.{
  ℕ, ◌+◌, ◌-◌, ◌≤◌, Bool, true, false, Option, none, some, List, [], ◌∷◌, ◌≡◌, refl, arith, ltb,
  if◌then◌else◌, Bool-cases, inl, inr,
}

pub record Limiter : Type 0 where
  pub active : ℕ
  pub limit : ℕ

unfoldable pub try_acquire : Limiter → Option Limiter
try_acquire l = if ltb l.active l.limit then some (record l { active = l.active + 1 }) else none

-- A dropped permit.
unfoldable pub release : Limiter → Limiter
release l = record l { active = l.active - 1 }

-- What happens at the gate: a connection, for which a handler can be spawned or not, or the end of
-- one of the handlers that run.
pub data Event : Type 0 where
  connects : Bool → Event
  ends : Event

-- The gate: its permits, the handlers that run, and the connections that were rejected.
pub record Gate : Type 0 where
  pub limiter : Limiter
  pub handlers : ℕ
  pub rejected : ℕ

-- A failed spawn drops the permit.
abbrev admit : Gate → Bool → Option Limiter → Gate
admit g spawns none = record g { rejected = g.rejected + 1 }
admit g true (some l) = record g { limiter = l; handlers = g.handlers + 1 }
admit g false (some l) = record g { limiter = release l }

unfoldable pub on_event : Gate → Event → Gate
unfolding try_acquire release
on_event g (connects spawns) = admit g spawns (try_acquire g.limiter)
on_event g ends =
    if ltb 0 g.handlers
    then record g { limiter = release g.limiter; handlers = g.handlers - 1 }
    else g

unfoldable pub serve_events : Gate → List Event → Gate
unfolding on_event
serve_events g [] = g
serve_events g (e ∷ es) = serve_events (on_event g e) es

abbrev pub new_gate : ℕ → Gate
new_gate limit = record {
  limiter = record { active = 0; limit = limit };
  handlers = 0;
  rejected = 0;
}

-- Every permit is held by a handler that runs, and there are never more than the cap.
pub record IsBounded (limit : ℕ) (g : Gate) : Type 0 where
  pub held : g.limiter.active ≡ g.handlers
  pub bound : g.handlers ≤ limit
  pub cap : g.limiter.limit ≡ limit

on_event-IsBounded :
    (limit : ℕ) (g : Gate) (e : Event) → IsBounded limit g → IsBounded limit (on_event g e)
unfolding on_event try_acquire release
on_event-IsBounded limit g (connects spawns) b =
    elim (Bool-cases (ltb g.limiter.active g.limiter.limit)) [
      | inr h ↦ rw h (record { held = b.held; bound = b.bound; cap = b.cap })
      | inl h ↦ rw h (go spawns h)
    ]
  where
    go :
        (s : Bool)
        → ltb g.limiter.active g.limiter.limit ≡ true
        → IsBounded limit (admit g s (some (record g.limiter { active = g.limiter.active + 1 })))
    go true h = record {
      held = ground (arith, b.held);
      bound = ground (arith, b.held, b.bound, b.cap, h);
      cap = b.cap;
    }
    go false h = record { held = ground (arith, b.held); bound = b.bound; cap = b.cap }
on_event-IsBounded limit g ends b = elim (Bool-cases (ltb 0 g.handlers)) [
  | inl h ↦
      rw h (record { held = ground (arith, b.held); bound = ground (arith, b.bound); cap = b.cap })
  | inr h ↦ rw h b
]

serve_events-on :
    (limit : ℕ) (g : Gate) (es : List Event)
    → IsBounded limit g
    → IsBounded limit (serve_events g es)
unfolding serve_events
serve_events-on limit g [] b = b
serve_events-on limit g (e ∷ es) b =
    serve_events-on limit (on_event g e) es (on_event-IsBounded limit g e b)

-- From its start on, however connections, failed spawns and the ends of handlers are mixed, the gate
-- never runs more handlers than its cap, and every permit is held by a handler that runs: none leaks.
pub serve_events-IsBounded :
    (limit : ℕ) (es : List Event) → IsBounded limit (serve_events (new_gate limit) es)
serve_events-IsBounded limit es =
    serve_events-on limit (new_gate limit) es
      (record { held = refl; bound = omega arith; cap = refl })
