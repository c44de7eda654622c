-- ===== src/Server/Interface.antt =====
-- src/core/server.cpp and include/cppalls/core/server.hpp: the static functions of the classes server
-- and app, on the one server_impl_t of the program.
use cpp_alls.Prelude.{
  lift, pure, ◌>>=◌, arith, ◌≡◌, String, List, str_eq, if◌then◌else◌, M, ok, throws, error_runtime,
  raise, ◌>>◌,
}
use cpp_alls.Prelude.Dict.{find-erase}
use cpp_alls.Server.Env.{Env}
use cpp_alls.Server.Instances.{Instance, Server, text_field}
use cpp_alls.Server.Operations

module _ (env : Env) where
  -- server::start, stop, reload and reload of a path.
  abbrev pub start : String → M Server (Unit {0})
  start path_to_config = Operations.start_at env path_to_config

  abbrev pub stop : M Server (Unit {0})
  stop = Operations.stop env

  abbrev pub reload : M Server (Unit {0})
  reload = Operations.reload env

  abbrev pub reload_with : String → M Server (Unit {0})
  reload_with path_to_config = Operations.reload_at env path_to_config

  -- app::construct. It returns the application that start_instance has made, which has the number
  -- that was the next one, and the type of its configuration.
  abbrev pub construct : String → M Server Instance
  construct config s =
      (do
        Operations.instance_construct env config
        node ← lift (env.load_text config)
        type ← lift (text_field env node "type")
        pure (record { id = s.next_id; type = type }))
        s

abbrev pub available_apps : Server → List String
available_apps s = Operations.available_apps s

abbrev pub get : String → M Server Instance
get instance_name = Operations.get instance_name

abbrev pub free : String → M Server (Unit {0})
free instance_name s = (ok tt, Operations.instance_free instance_name s)

abbrev pub exception_for_get : {A : Type 0} → M Server A
exception_for_get = raise error_runtime

-- After `free`, no application has the name; what the other names stand for stays.
pub get-free :
    (name other : String) (s : Server)
    → (free name >> get other) s ≡ (
        if str_eq name other
        then (throws error_runtime, Operations.instance_free name s)
        else ((get other s).0, Operations.instance_free name s))
unfolding Operations.get Operations.instance_free
get-free name other s = ground (arith, find-erase name other s.instances)
