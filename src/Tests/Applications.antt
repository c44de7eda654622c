-- ===== src/Tests/Applications.antt =====
-- A server whose configuration names one application, of a type that the program itself provides.
use cpp_alls.Prelude.{
  throws, error_runtime, ◌≡◌, ◌≢◌, ◌⊎◌, ◌>>=◌, refl, String, List, [], ◌∷◌, Option, none, some,
  false, ◌&&◌, str_eq, if◌then◌else◌, ok,
}
use cpp_alls.Server.Env.{Env, started, stopped}
use cpp_alls.Server.Config.{
  read_config, without_directories, emplace_all, search_in_binary, search_in_binaries,
  find_apps_in_entry, find_apps_in_bins, fill_apps_to_path,
}
use cpp_alls.Server.Instances.{Instance, Server, builtin, fresh, make, run_instance, start_instance}
use cpp_alls.Server.Operations.{
  stop_all, init_logger, add_instance, reload_all, finish_reload, reload, stop, start,
}
use cpp_alls.Server.Operations.Changed.{IsSame, reload-changed}
use cpp_alls.Server.Operations.Starting.{Entry, numbered, starts, start-entries}
use cpp_alls.Server.Operations.Stopping.{running, stop-all}
use cpp_alls.Server.Operations.Reload.{reload-stopped}

abbrev fields : String → String → Option String
fields n key =
    if str_eq n "root" && str_eq key "applications"
    then some "list"
    else if str_eq n "app" && str_eq key "type"
    then some "echo"
    else none

-- Nodes are texts.
abbrev pub host : Env
host = record {
  Node = String;
  load_file = λ p. ok "root";
  load_text = λ p. ok "app";
  field = fields;
  core = λ n key. ok none;
  as_text = λ n. ok n;
  is_scalar = λ n. false;
  is_sequence = λ n. false;
  is_null = λ n. false;
  elements = λ n. "app" ∷ [];
  is_relative = λ p. false;
  beside = λ a b. b;
  is_directory = λ p. false;
  is_regular_file = λ p. false;
  status_error = λ p. false;
  directory = λ p. ok [];
  sort = λ ps. ps;
  symbols = λ p. ok ("echo" ∷ []);
  this_line_location = "main";
  construct = λ path type events. ok tt;
  start_app = λ id n events. ok tt;
  reload_app = λ id n events. ok tt;
  stop_app = λ id events. ok tt;
  is_logger = λ type. false;
}

abbrev echo : Instance
echo = record { id = 0; type = "echo" }

abbrev holding_echo : Server
holding_echo = record fresh {
  instances = ("echo", echo) ∷ [];
  next_id = 1;
  events = started 0 ∷ [];
}

stop-all_example : stop host holding_echo ≡ (
  ok tt,
  record holding_echo { instances = []; app_to_path = []; events = started 0 ∷ stopped 0 ∷ [] },
)
stop-all_example = stop-all host holding_echo (λ id events. refl)

reload-stopped_example : running 0 (reload host fresh).1.events ≡ false
unfolding read_config without_directories emplace_all search_in_binary search_in_binaries
    find_apps_in_entry find_apps_in_bins fill_apps_to_path make run_instance start_instance stop_all
    init_logger add_instance reload_all finish_reload reload
reload-stopped_example = reload-stopped host fresh (reload host fresh).1 "echo" echo refl refl

-- Two applications, of which the second has a name of its own.
abbrev two : Env
two = record host {
  field = λ n key.
      if str_eq n "root" && str_eq key "applications"
      then some "list"
      else if str_eq key "type"
      then some "echo"
      else if str_eq n "second" && str_eq key "instance-name"
      then some "other"
      else none;
  elements = λ n. "first" ∷ "second" ∷ [];
}

abbrev entries : List (Entry String)
entries =
    record { node = "first"; type = "echo"; path = "main"; name = "echo" }
    ∷ (record { node = "second"; type = "echo"; path = "main"; name = "other" } ∷ [])

start-entries_example : start two fresh ≡ (
  ok tt,
  record fresh {
    app_to_path = ("echo", "main") ∷ [];
    instances = numbered 0 entries;
    next_id = 2;
    events = starts 0 entries;
    log = builtin;
  },
)
unfolding read_config without_directories emplace_all search_in_binary search_in_binaries
    find_apps_in_entry find_apps_in_bins fill_apps_to_path
start-entries_example =
    start-entries two fresh "root" entries (("echo", "main") ∷ []) refl refl refl
      (
        record { typed = refl; there = refl; named = refl },
        (record { typed = refl; there = refl; named = refl }, tt),
      )
      ((refl, tt), (tt, tt)) refl (λ path type events. refl) (λ id node events. refl)

-- A server whose only type lies in another binary than the one that is found.
abbrev found : List (String × String)
found = ("echo", "main") ∷ []

abbrev moved : Server
moved = record fresh { app_to_path = ("echo", "other") ∷ [] }

reload-changed_example :
    (((moved.app_to_path ≡ []) ⊎ (IsSame found moved.app_to_path))
      × (reload host moved
          ≡ (reload_all host ("app" ∷ []) found [] >>= finish_reload host "root" found) moved))
    ⊎ ((moved.app_to_path ≢ [])
        × (¬ (IsSame found moved.app_to_path))
        × (reload host moved ≡ (throws error_runtime, moved)))
unfolding read_config without_directories emplace_all search_in_binary search_in_binaries
    find_apps_in_entry find_apps_in_bins fill_apps_to_path
reload-changed_example = reload-changed host moved "root" ("app" ∷ []) found refl refl (refl, tt)
