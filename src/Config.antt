-- ===== src/Config.antt =====
-- broker/config.go, check: the defaults and the consistency of a configuration that was read.
pub mod Complete
use hmq.Prelude.{
  ℕ, Bool, true, false, ◌&&◌, ◌||◌, not, Option, none, some, Bytes, codes, is_empty, if◌then◌else◌,
}
use hmq.Prelude.Int.{ℤ, pos, is_zero}

pub data ConfigError : Type 0 where
  cluster_port_null no_cert_or_key : ConfigError

-- Config, with the fields of its Cluster and of its TlsInfo. Plugin holds the plugins themselves,
-- which check does not look at.
pub record Config : Type 0 where
  pub worker : ℤ
  pub http_port : Bytes
  pub host : Bytes
  pub port : Bytes
  pub cluster_host : Bytes
  pub cluster_port : Bytes
  pub router : Bytes
  pub tls_host : Bytes
  pub tls_port : Bytes
  pub ws_path : Bytes
  pub ws_port : Bytes
  pub ws_tls : Bool
  pub verify : Bool
  pub ca_file : Bytes
  pub cert_file : Bytes
  pub key_file : Bytes
  pub debug : Bool

abbrev pub any_host : Bytes
any_host = codes "0.0.0.0"

-- The host of a port that is given
abbrev pub host_of : Bytes → Bytes → Bytes
host_of port host = if not (is_empty port) then (if is_empty host then any_host else host) else host

abbrev pub with_hosts : Config → Config
with_hosts c = record c {
  worker = if is_zero c.worker then pos 1024 else c.worker;
  host = host_of c.port c.host;
  cluster_host = host_of c.cluster_port c.cluster_host;
}

-- check changes the configuration also where it returns an error.
unfoldable pub check : Config → Config × Option ConfigError
check c =
    let c' = with_hosts c in
    if not (is_empty c.router) && is_empty c.cluster_port
    then (c', some cluster_port_null)
    else if not (is_empty c.tls_port) && (is_empty c.cert_file || is_empty c.key_file)
    then (c', some no_cert_or_key)
    else (record c' { tls_host = host_of c.tls_port c.tls_host }, none)
