-- ===== src/Server/Config.antt =====
-- The configuration of server.cpp: which files it is read from, and in which binaries the
-- application types are found.
pub mod Types
pub mod Merged
use cpp_alls.Prelude.{
  lift, String, List, [], ◌∷◌, ◌++◌, Option, none, some, if◌then◌else◌, Bool, true, false, not,
  ◌&&◌, ◌||◌, M, Outcome, ok, throws, undefined, out_of_fuel, yaml_error, error_runtime, raise,
  pure, ◌>>=◌, ◌>>◌,
}
use cpp_alls.Prelude.Dict.{emplace}
use cpp_alls.Server.Env.{Env}

-- `catch (const std::exception&)` around a call: what it throws becomes an error_runtime.
abbrev pub rethrow : {A : Type 0} → Outcome A → Outcome A
rethrow (throws e) = throws error_runtime
rethrow r = r

-- What is done if the call throws a `std::exception`.
abbrev pub catch : {A : Type 0} → Outcome A → A → Outcome A
catch (throws e) a = ok a
catch r a = r

module _ (env : Env) where
  open env use {Node}

  -- `node[key]`
  abbrev pub member : Node → String → Outcome (Option Node)
  member node key = if env.is_scalar node then throws yaml_error else ok (env.field node key)

  -- `app_to_path_t`
  abbrev pub Apps : Type 0
  Apps = List (String × String)

  abbrev pub resolve : String → String → String
  resolve config_path p = if env.is_relative p then env.beside config_path p else p

  abbrev pub elements_of : Option Node → List Node
  elements_of none = []
  elements_of (some n) = env.elements n

  -- `is_directory(p, error) && !error`, and the same for a regular file.
  abbrev pub known_directory : String → Bool
  known_directory p = env.is_directory p && not (env.status_error p)

  abbrev pub known_file : String → Bool
  known_file p = env.is_regular_file p && not (env.status_error p)

  -- A visited entry is passed over by `if (is_directory(*it, error) || error)`.
  unfoldable pub without_directories : List String → List String
  without_directories [] = []
  without_directories (p ∷ ps) =
      if env.is_directory p || env.status_error p
      then without_directories ps
      else p ∷ without_directories ps

  -- `another_conf["applications"]` of a loaded file.
  abbrev pub applications_of : Outcome (Option Node) → Outcome (List Node)
  applications_of (ok apps) = ok (elements_of apps)
  applications_of (throws e) = throws e
  applications_of undefined = undefined
  applications_of out_of_fuel = out_of_fuel

  abbrev pub in_file : Outcome Node → Outcome (List Node)
  in_file (ok another) = applications_of (member another "applications")
  in_file (throws e) = throws e
  in_file undefined = undefined
  in_file out_of_fuel = out_of_fuel

  -- `config_to_patch["applications"]` can be pushed to if it is absent, null or a sequence.
  abbrev pub is_open : Option Node → Bool
  is_open none = true
  is_open (some n) = env.is_sequence n || env.is_null n

  abbrev pub is_empty : List Node → Bool
  is_empty [] = true
  is_empty (n ∷ ns) = false

  -- `push_back` of all of them, where the first throws if the list cannot be pushed to.
  abbrev pub push_all : Bool → List Node → M (List Node) (Unit {0})
  push_all open_ apps t =
      if is_empty apps || open_ then (ok tt, t ++ apps) else (throws error_runtime, t)

  abbrev pub append_file : Bool → String → M (List Node) (Unit {0})
  append_file open_ path = do
    apps ← lift (rethrow (in_file (env.load_file path)))
    push_all open_ apps

  -- The loop of read_single_config_file: the applications of each file go behind those there are.
  pub append_applications : Bool → List String → M (List Node) (Unit {0})
  append_applications open_ [] = pure tt
  append_applications open_ (path ∷ paths) =
      append_file open_ path >> append_applications open_ paths

  pub read_single_config_file : String → Bool → String → M (List Node) (Unit {0})
  read_single_config_file config_path open_ file_or_path = do
    let p = resolve config_path file_or_path
    inside ← lift (if known_directory p then env.directory p else ok [])
    let itself = if known_file p then p ∷ [] else []
    append_applications open_ (env.sort (without_directories inside ++ itself))

  pub read_config_files : String → Bool → List Node → M (List Node) (Unit {0})
  read_config_files config_path open_ [] = pure tt
  read_config_files config_path open_ (conf ∷ confs) = do
    name ← lift (env.as_text conf)
    read_single_config_file config_path open_ name
    read_config_files config_path open_ confs

  -- The root of the configuration, and its applications with those of the dependent files. A root that
  -- has no fields throws at `config["core"]` already.
  unfoldable pub read_config : String → Outcome (Node × List Node)
  read_config config_path = with_root (rethrow (env.load_file config_path))
    where
      with_files : Node → Outcome (Unit {0}) × List Node → Outcome (Node × List Node)
      with_files root (ok u, apps) = ok (root, apps)
      with_files root (throws e, apps) = throws e
      with_files root (undefined, apps) = undefined
      with_files root (out_of_fuel, apps) = out_of_fuel

      with_own : Node → Option Node → Outcome (Option Node) → Outcome (Node × List Node)
      with_own root none (ok own) = ok (root, elements_of own)
      with_own root (some configs) (ok own) = with_files root (
          read_config_files config_path (is_open own)
            (if env.is_sequence configs then env.elements configs else configs ∷ [])
            (elements_of own))
      with_own root configs (throws e) = throws e
      with_own root configs undefined = undefined
      with_own root configs out_of_fuel = out_of_fuel

      with_configs : Node → Outcome (Option Node) → Outcome (Node × List Node)
      with_configs root (ok configs) = with_own root configs (member root "applications")
      with_configs root (throws e) = throws e
      with_configs root undefined = undefined
      with_configs root out_of_fuel = out_of_fuel

      with_root : Outcome Node → Outcome (Node × List Node)
      with_root (ok root) = with_configs root (env.core root "configs")
      with_root (throws e) = throws e
      with_root undefined = undefined
      with_root out_of_fuel = out_of_fuel

  -- `app_to_path.emplace(app, p)` for each symbol.
  unfoldable pub emplace_all : List String → String → Apps → Apps
  emplace_all [] p apps = apps
  emplace_all (app ∷ symbols) p apps = emplace_all symbols p (emplace app p apps)

  -- A binary that cannot be read is passed over.
  unfoldable pub search_in_binary : String → M Apps (Unit {0})
  search_in_binary p = do
    symbols ← lift (catch (env.symbols p) [])
    (λ apps. (ok tt, emplace_all symbols p apps))

  unfoldable pub search_in_binaries : List String → M Apps (Unit {0})
  search_in_binaries [] = pure tt
  search_in_binaries (p ∷ ps) = do search_in_binary p; search_in_binaries ps

  unfoldable pub find_apps_in_entry : String → String → M Apps (Unit {0})
  find_apps_in_entry config_path entry = do
    let p = resolve config_path entry
    inside ← lift (env.directory p)
    search_in_binaries (without_directories inside)
    if known_file p then search_in_binary p else pure tt

  pub find_apps_in_entries : String → List Node → M Apps (Unit {0})
  find_apps_in_entries config_path [] = pure tt
  find_apps_in_entries config_path (v ∷ vs) = do
    entry ← lift (env.as_text v)
    find_apps_in_entry config_path entry
    find_apps_in_entries config_path vs

  -- `core: binaries:` is one path, a sequence of paths, or absent.
  unfoldable pub find_apps_in_bins : String → Option Node → M Apps (Unit {0})
  find_apps_in_bins config_path none = find_apps_in_entry config_path "./apps/"
  find_apps_in_bins config_path (some bins) =
      if env.is_scalar bins
      then (do entry ← lift (env.as_text bins); find_apps_in_entry config_path entry)
      else if env.is_sequence bins
      then find_apps_in_entries config_path (env.elements bins)
      else raise error_runtime

  unfoldable pub fill_apps_to_path : String → Node → M Apps (Unit {0})
  fill_apps_to_path config_path config = do
    own ← lift (env.symbols env.this_line_location)
    (λ apps. (ok tt, emplace_all own env.this_line_location apps))
    bins ← lift (env.core config "binaries")
    find_apps_in_bins config_path bins
