-- ===== src/Gate/Tests.antt =====
-- Concrete inputs for the theorems of the gate.
use vaultwarden_hummingbird.Base.{true, false, some, [], ◌∷◌}
use vaultwarden_hummingbird.Gate.Limiter.{
  connects, ends, serve_events, new_gate, IsBounded, serve_events-IsBounded,
}
use vaultwarden_hummingbird.Gate.Server.{Liveness}

serve_events-IsBounded_example :
    IsBounded 1
      (serve_events (new_gate 1) (connects true ∷ connects true ∷ ends ∷ connects false ∷ []))
serve_events-IsBounded_example =
    serve_events-IsBounded 1 (connects true ∷ connects true ∷ ends ∷ connects false ∷ [])

abbrev live : Liveness
live = record { has_vault = true; ttl = 2; verdict = some (5, true); probes = 1 }
