-- ===== src/Boot/Tests.antt =====
-- A concrete boot.
use vaultwarden_hummingbird.Base.{true, false, none, some, [], ◌∷◌}
use vaultwarden_hummingbird.Text.{codes}
use vaultwarden_hummingbird.Config.Merge.{Config}
use vaultwarden_hummingbird.Backup.Restore.{ready}
use vaultwarden_hummingbird.Boot.{
  Surroundings, boot, adopt_lineage, restore_db, restore_state, tailscaled, daemon_wait,
  tailscale_up, serve,
}
use vaultwarden_hummingbird.Boot.Started.{Ends, boot-Ends}

abbrev cfg : Config
cfg = record {
  state = codes "mem:";
  socket = codes "/tmp/s";
  port = codes "8080";
  vault_port = some (codes "8081");
  hostname = codes "h";
  authkey = some (codes "k");
  serve = true;
  service = none;
  userspace = true;
  sync = none;
  backup = none;
  vw_env = [];
}

abbrev around : Surroundings
around = record {
  stop = λ p. false;
  restored = ready;
  spawned = true;
  daemon_up = true;
  node_up = true;
  serving = true;
}

boot-Ends_example :
    Ends cfg around
      (adopt_lineage ∷ restore_db ∷ restore_state ∷ tailscaled ∷ daemon_wait ∷ tailscale_up ∷ serve
        ∷ [])
      (record { tsd = false; calls = [] })
      (boot cfg around)
boot-Ends_example = boot-Ends cfg around
