-- ===== src/Examples/Settings.antt =====
-- broker/config.go: a configuration with a port and no host.
use hmq.Prelude.{◌≡◌, refl, none, [], codes, false}
use hmq.Prelude.Int.{pos}
use hmq.Config.{Config, check}
use hmq.Config.Complete.{IsComplete, check-IsComplete}

abbrev port_only : Config
port_only = record {
  worker = pos 0;
  http_port = [];
  host = [];
  port = codes "1883";
  cluster_host = [];
  cluster_port = [];
  router = [];
  tls_host = [];
  tls_port = [];
  ws_path = [];
  ws_port = [];
  ws_tls = false;
  verify = false;
  ca_file = [];
  cert_file = [];
  key_file = [];
  debug = false;
}

passes : (check port_only).1 ≡ none
unfolding check
passes = refl

check-IsComplete_example :
    IsComplete (check port_only).0 × (check (check port_only).0 ≡ ((check port_only).0, none))
check-IsComplete_example = check-IsComplete port_only passes
