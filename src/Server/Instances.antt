-- ===== src/Server/Instances.antt =====
-- The state of server_impl_t, and start_instance.
pub mod Inversion
pub mod Settled
use cpp_alls.Prelude.{
  lift, ℕ, ◌+◌, String, List, [], ◌∷◌, ◌++◌, Option, none, some, M, Outcome, ok, throws, undefined,
  out_of_fuel, yaml_error, error_runtime, raise, pure, ◌>>=◌, ◌>>◌, continue_with,
}
use cpp_alls.Prelude.Dict.{find, emplace}
use cpp_alls.Server.Env.{Env, Event, constructed, started, destroyed}
use cpp_alls.Server.Config.{Apps, catch, member}

-- An application object. Two are the same if their numbers are.
pub record Instance : Type 0 where
  pub id : ℕ
  pub type : String

-- `log_`: the delayed_logger of the constructor, a cpp_logger, or an application.
pub data Log : Type 0 where
  delayed : Log
  builtin : Log
  app : Instance → Log

abbrev pub Instances : Type 0
Instances = List (String × Instance)

-- `events` are the calls on application objects so far, and `next_id` is a number not yet used.
pub record Server : Type 0 where
  pub app_to_path : List (String × String)
  pub instances : Instances
  pub config_path : String
  pub log : Log
  pub next_id : ℕ
  pub events : List Event

-- The constructor of server_impl_t.
abbrev pub fresh : Server
fresh = record {
  app_to_path = [];
  instances = [];
  config_path = "";
  log = delayed;
  next_id = 0;
  events = [];
}

abbrev pub remember : Event → Server → Server
remember e s = record s { events = s.events ++ (e ∷ []) }

-- A call on an application object, with what it returns or throws.
abbrev pub perform : Event → (List Event → Outcome (Unit {0})) → M Server (Unit {0})
perform e result s = (result s.events, remember e s)

-- When an exception leaves start_instance, the object that it has made goes with it.
abbrev pub dropped {ℓ} : {A : Type ℓ} → ℕ → Outcome A × Server → Outcome A × Server
dropped id (throws e, s) = (throws e, remember (destroyed id) s)
dropped id (ok a, s) = (ok a, s)
dropped id (undefined, s) = (undefined, s)
dropped id (out_of_fuel, s) = (out_of_fuel, s)

-- `it == map.cend()` throws an error_runtime.
abbrev pub found {ℓ} : {A : Type ℓ} → Option A → M Server A
found none = raise error_runtime
found (some a) = pure a

module _ (env : Env) where
  open env use {Node}

  -- `node[key].as<std::string>()`
  abbrev pub text_field : Node → String → Outcome String
  text_field node key = elim (member env node key) [
    | ok none ↦ throws yaml_error
    | ok (some n) ↦ env.as_text n
    | throws e ↦ throws e
    | undefined ↦ undefined
    | out_of_fuel ↦ out_of_fuel
  ]

  -- `app_node["instance-name"].as<std::string>(app_type)`
  abbrev pub name_or : Node → String → Outcome String
  name_or node type = elim (member env node "instance-name") [
    | ok none ↦ ok type
    | ok (some n) ↦ catch (env.as_text n) type
    | throws e ↦ throws e
    | undefined ↦ undefined
    | out_of_fuel ↦ out_of_fuel
  ]

  -- The library is loaded and the object is made.
  unfoldable pub make : String → String → M Server Instance
  make path type s =
      continue_with (env.construct path type s.events, s)
        λ _ t. (
          ok (record { id = t.next_id; type = type }),
          record t { next_id = t.next_id + 1; events = t.events ++ (constructed t.next_id ∷ []) },
        )

  -- `instances.count(instance_name)` throws; otherwise the instance goes into the map.
  abbrev pub insert_new : String → Instance → Instances → Option Instance → M Server Instances
  insert_new name inst into none = pure (emplace name inst into)
  insert_new name inst into (some other) = raise error_runtime

  -- The part of start_instance in which the new object is held. It is started before its name is
  -- looked up.
  unfoldable pub run_instance : Node → Instance → Instances → M Server Instances
  run_instance node inst into = do
    perform (started inst.id) (env.start_app inst.id node)
    name ← lift (name_or node inst.type)
    insert_new name inst into (find name into)

  unfoldable pub start_instance : Node → List (String × String) → Instances → M Server Instances
  start_instance node apps into = do
    type ← lift (text_field node "type")
    path ← found (find type apps)
    inst ← make path type
    (λ s. dropped inst.id (run_instance node inst into s))
