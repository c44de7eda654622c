-- ===== src/Server/Operations.antt =====
-- The public operations of server_impl_t: start, stop, reload, get, free and construct.
pub mod Stopping
pub mod Starting
pub mod Changed
pub mod Reload
use cpp_alls.Prelude.{
  lift, ℕ, ◌+◌, String, List, [], ◌∷◌, ◌++◌, Option, none, some, Bool, true, false, not, ◌&&◌, ◌==◌,
  str_eq, if◌then◌else◌, length, map, M, Outcome, ok, throws, undefined, out_of_fuel, error_runtime,
  raise, pure, ◌>>=◌, ◌>>◌, continue_with,
}
use cpp_alls.Prelude.Dict.{find, emplace, erase}
use cpp_alls.Server.Env.{Env, Event, stopped, reloaded}
use cpp_alls.Server.Config.{member, read_config, fill_apps_to_path}
use cpp_alls.Server.Instances.{
  Instance, Instances, Log, delayed, builtin, app, Server, perform, found, text_field,
  start_instance,
}

-- `std::vector<std::string> available_apps()`
pub available_apps : Server → List String
available_apps s = map (λ a. a.0) s.app_to_path

unfoldable pub get : String → M Server Instance
get name s = found (find name s.instances) s

-- `app::get<T>(name)`; the dynamic_pointer_cast to `T` succeeds for the types of applications given.
abbrev pub get_as : (String → Bool) → String → M Server Instance
get_as is_type name = do
  inst ← get name
  if is_type inst.type then pure inst else raise error_runtime

unfoldable pub instance_free : String → Server → Server
instance_free name s = record s { instances = erase name s.instances }

abbrev set_instances : Instances → M Server (Unit {0})
set_instances m s = (ok tt, record s { instances = m })

-- Every entry of the first map is in the second.
abbrev pub is_in : List (String × String) → List (String × String) → Bool
is_in [] n = true
is_in ((k, v) ∷ m) n = (elim (find k n) [ none ↦ false | some w ↦ str_eq w v ]) && is_in m n

-- `operator ==` of two unordered maps.
abbrev pub same_map : List (String × String) → List (String × String) → Bool
same_map m n = (length m == length n) && is_in m n

module _ (env : Env) where
  open env use {Node}

  -- `for (auto&& inst : instances_) inst.second->stop();`
  unfoldable pub stop_all : Instances → M Server (Unit {0})
  stop_all [] = pure tt
  stop_all ((name, inst) ∷ rest) = do
    perform (stopped inst.id) (env.stop_app inst.id)
    stop_all rest

  pub stop : M Server (Unit {0})
  stop s =
      (do stop_all s.instances; (λ t. (ok tt, record t { instances = []; app_to_path = [] }))) s

  -- `app::get<api::logger>(name)`
  pub get_logger : String → M Server Instance
  get_logger name = get_as env.is_logger name

  abbrev pub choose_logger : Option Node → M Server Log
  choose_logger none = pure builtin
  choose_logger (some n) = do name ← lift (env.as_text n); inst ← get_logger name; pure (app inst)

  -- The messages that a delayed_logger passes on here are modelled in Logger/Delayed.
  unfoldable pub init_logger : Node → M Server (Unit {0})
  init_logger config = do
    chosen ← lift (env.core config "logger")
    log ← choose_logger chosen
    (λ s. (ok tt, record s { log = log }))

  -- `start_instance(app_node, app_to_path_, *log_, instances_)`
  pub start_here : Node → M Server (Unit {0})
  start_here node s = (do m ← start_instance env node s.app_to_path s.instances; set_instances m) s

  pub start_all : List Node → M Server (Unit {0})
  start_all [] = pure tt
  start_all (node ∷ nodes) = do start_here node; start_all nodes

  pub instance_construct : String → M Server (Unit {0})
  instance_construct config = do node ← lift (env.load_text config); start_here node

  -- `fill_apps_to_path(config, app_to_path_)`
  pub fill_own_apps : Node → M Server (Unit {0})
  fill_own_apps root s =
      let r = fill_apps_to_path env s.config_path root s.app_to_path in
      (r.0, record s { app_to_path = r.1 })

  pub start : M Server (Unit {0})
  start s =
      (do
        (root, nodes) ← lift (read_config env s.config_path)
        fill_own_apps root
        start_all nodes
        init_logger root)
        s

  pub start_at : String → M Server (Unit {0})
  start_at path s = start (record s { config_path = path })

  -- The name by which reload looks an application up.
  abbrev pub reload_name : Node → Outcome String
  reload_name node = elim (member env node "instance-name") [
    | ok none ↦ text_field env node "type"
    | ok (some n) ↦ env.as_text n
    | throws e ↦ throws e
    | undefined ↦ undefined
    | out_of_fuel ↦ out_of_fuel
  ]

  -- `instances_.emplace(instance_name, new_instances.find(instance_name)->second)`
  abbrev pub enter : String → Instances → Option Instance → M Server Instances
  enter name m none s = (undefined, s)
  enter name m (some inst) s = (ok m, record s { instances = emplace name inst s.instances })

  -- One round of the loop of reload, for an instance that is not in `instances_`: it is started
  -- into the new map, and entered in `instances_` too.
  unfoldable pub add_instance :
      Node → List (String × String) → String → Instances → M Server Instances
  add_instance node apps name new_instances = do
    m ← start_instance env node apps new_instances
    enter name m (find name m)

  -- And for one that is.
  pub keep_instance : Node → String → Instance → Instances → M Server Instances
  keep_instance node name inst new_instances = do
    perform (reloaded inst.id) (env.reload_app inst.id node)
    pure (emplace name inst new_instances)

  abbrev pub reload_one :
      Node → List (String × String) → String → Instances → Option Instance → M Server Instances
  reload_one node apps name new_instances none = add_instance node apps name new_instances
  reload_one node apps name new_instances (some inst) = keep_instance node name inst new_instances

  unfoldable pub reload_all : List Node → List (String × String) → Instances → M Server Instances
  reload_all [] apps new_instances = pure new_instances
  reload_all (node ∷ nodes) apps new_instances = do
    name ← lift (reload_name node)
    m ← (λ s. reload_one node apps name new_instances (find name s.instances) s)
    reload_all nodes apps m

  -- `!app_to_path_.empty() && new_app_to_path != app_to_path_` throws.
  abbrev pub check_apps : List (String × String) → M Server (Unit {0})
  check_apps new_apps s =
      if not (length s.app_to_path == 0) && not (same_map new_apps s.app_to_path)
      then (throws error_runtime, s)
      else (ok tt, s)

  -- The end of reload: every instance of the old map is stopped, and the new maps take over.
  unfoldable pub finish_reload : Node → List (String × String) → Instances → M Server (Unit {0})
  finish_reload root new_apps new_instances = do
    (λ s. stop_all s.instances s)
    (λ s. (ok tt, record s { instances = new_instances; app_to_path = new_apps }))
    init_logger root

  abbrev pub filled : Outcome (Unit {0}) × List (String × String) → Outcome (List (String × String))
  filled (ok u, apps) = ok apps
  filled (throws e, apps) = throws e
  filled (undefined, apps) = undefined
  filled (out_of_fuel, apps) = out_of_fuel

  unfoldable pub reload : M Server (Unit {0})
  reload s =
      (do
        (root, nodes) ← lift (read_config env s.config_path)
        new_apps ← lift (filled (fill_apps_to_path env s.config_path root []))
        check_apps new_apps
        new_instances ← reload_all nodes new_apps []
        finish_reload root new_apps new_instances)
        s

  pub reload_at : String → M Server (Unit {0})
  reload_at path s = reload (record s { config_path = path })
