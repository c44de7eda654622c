-- ===== src/Tests/Lookups.antt =====
-- A server for TCP whose configuration names three applications of a running server.
use cpp_alls.Prelude.{
  ℕ, ◌≡◌, ◌⊎◌, refl, String, [], ◌∷◌, ◌++◌, none, some, true, false, str_eq, ok, arith,
}
use cpp_alls.Prelude.Dict.{find}
use cpp_alls.Server.Env.{Env}
use cpp_alls.Server.Instances.{Instance, Server, fresh}
use cpp_alls.Network.{Accept, Host}
use cpp_alls.Network.Lookup.{Services, configured}
use cpp_alls.Network.Lookup.Start.{has_all, IsRefused, begun, start-configured}
use cpp_alls.Network.Tcp.{create, start}
use cpp_alls.Tests.Applications.{host}

-- Every node has every field, and a field's text is its key.
abbrev keyed : Env
keyed = record host { field = λ n key. some key; is_logger = λ type. str_eq type "log" }

abbrev services : Services String
services = record {
  is_connection_processor = λ type. str_eq type "echo";
  is_io_service = λ type. str_eq type "io";
  as_port = λ n. ok 63101;
  as_bool = λ n. ok true;
  from_string = λ text. ok tt;
  listen = λ i text n. ok tt;
  set_reuse_address = ok tt;
  context = ok tt;
}

abbrev network : Host
network = record {
  operator_new = λ n. 4096;
  handler_size = 300;
  set_no_delay = λ on events. ok tt;
  process = λ p c events. ok tt;
}

abbrev instance : ℕ → String → Instance
instance id type = record { id = id; type = type }

abbrev running : Server
running = record fresh {
  instances =
      ("logger", instance 0 "log")
      ∷ (("processor", instance 1 "echo") ∷ (("io_service", instance 2 "io") ∷ []));
  next_id = 3;
}

start-configured_example :
    ((l : Instance) × (p : Instance) × (i : Instance) × (a : Accept) × (has_all keyed services
          running "logger" "processor" "io_service"
        ≡ true)
      × (find "logger" running.instances ≡ some l)
      × (find "processor" running.instances ≡ some p)
      × (find "io_service" running.instances ≡ some i)
      × (start network (configured keyed services running "node") create ≡ (
        ok tt,
        record (begun l.id p.id i.id true create) { accepts = create.accepts ++ (a ∷ []) },
      ))
      × (a.acceptor ≡ create.next_acceptor)
      × (a.result ≡ none))
    ⊎ ((has_all keyed services running "logger" "processor" "io_service" ≡ false)
        × IsRefused network (configured keyed services running "node") create)
start-configured_example =
    start-configured keyed services network (omega arith) running "node" "logger" "processor"
      "io_service" refl refl refl "listen-address" 63101 refl (λ i. refl) refl create
