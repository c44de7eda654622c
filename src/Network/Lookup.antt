-- ===== src/Network/Lookup.antt =====
-- src/apps/boost_tcp/tcp.cpp, tcp_ssl.cpp and udp.cpp: what a server takes at `start` from the node
-- of its configuration and, by `app::get`, from the running server. What Boost.Asio does with an
-- address and a port, and which types of applications are which services, are parameters.
pub mod Start
use cpp_alls.Prelude.{
  lift, ℕ, String, Option, none, some, Bool, true, false, if◌then◌else◌, M, Outcome, ok, throws,
  undefined, out_of_fuel, error_runtime, yaml_error, raise, pure, ◌>>=◌, ◌>>◌, continue_with,
}
use cpp_alls.Prelude.Dict.{find}
use cpp_alls.Server.Env.{Env}
use cpp_alls.Server.Config.{catch, member}
use cpp_alls.Server.Instances.{Instance, Server, found, text_field}
use cpp_alls.Server.Operations.{get, get_as}
use cpp_alls.Network.{Config}

pub record Services (Node : Type 0) : Type 0 where
  pub is_connection_processor : String → Bool
  pub is_io_service : String → Bool
  -- `as<unsigned short>()` and `as<bool>()` of a node that is there.
  pub as_port : Node → Outcome ℕ
  pub as_bool : Node → Outcome Bool
  -- `address::from_string`, the acceptor or socket made on an io_service, and its option.
  pub from_string : String → Outcome (Unit {0})
  pub listen : ℕ → String → ℕ → Outcome (Unit {0})
  pub set_reuse_address : Outcome (Unit {0})
  pub context : Outcome (Unit {0})

abbrev fallback : Outcome Bool → Bool
fallback (ok b) = b
fallback _ = true

module _ (env : Env) (net : Services env.Node) where
  open env use {Node}

  -- `app::get<T>(conf[key].as<std::string>())`
  abbrev pub lookup : (String → Bool) → Node → String → M Server Instance
  lookup is_type conf key = do name ← lift (text_field env conf key); get_as is_type name

  -- `conf[key].as<bool>(true)`, of a node that is not a scalar, on which `conf["logger"]` has thrown.
  abbrev pub flag : Node → String → Bool
  flag conf key = elim (env.field conf key) [ none ↦ true | some n ↦ fallback (net.as_bool n) ]

  -- `conf["listen-address"].as<std::string>("0.0.0.0")`
  abbrev pub address : Node → Outcome String
  address conf = elim (member env conf "listen-address") [
    | ok none ↦ ok "0.0.0.0"
    | ok (some n) ↦ catch (env.as_text n) "0.0.0.0"
    | throws e ↦ throws e
    | undefined ↦ undefined
    | out_of_fuel ↦ out_of_fuel
  ]

  abbrev pub port : Node → Outcome ℕ
  port conf = elim (member env conf "listen-port") [
    | ok none ↦ throws yaml_error
    | ok (some n) ↦ net.as_port n
    | throws e ↦ throws e
    | undefined ↦ undefined
    | out_of_fuel ↦ out_of_fuel
  ]

  -- The endpoint of the address and the port.
  abbrev pub endpoint : Node → M Server (String × ℕ)
  endpoint conf = do
    text ← lift (address conf)
    lift (net.from_string text)
    n ← lift (port conf)
    pure (text, n)

  abbrev pub listening : Node → M Server (Unit {0})
  listening conf = do
    io_service ← lookup net.is_io_service conf "io_service"
    (text, n) ← endpoint conf
    lift (net.listen io_service.id text n)

  abbrev pub configured : Server → Node → Config
  configured s conf = record {
    logger = ((do i ← lookup env.is_logger conf "logger"; pure i.id) s).0;
    processor = ((do i ← lookup net.is_connection_processor conf "processor"; pure i.id) s).0;
    io_service = ((do i ← lookup net.is_io_service conf "io_service"; pure i.id) s).0;
    endpoint = ((do e ← endpoint conf; pure tt) s).0;
    listen = (listening conf s).0;
    reuse_address = flag conf "reuse-address";
    set_reuse_address = net.set_reuse_address;
    nodelay = flag conf "nodelay";
    context = net.context;
  }
