-- ===== src/Server/Config/Merged.antt =====
-- The applications of a configuration whose root names dependent files and directories.
use cpp_alls.Prelude.{
  ◌≡◌, ◌⊎◌, String, List, [], ◌∷◌, ◌++◌, some, Bool, ◌||◌, Option, none, if◌then◌else◌, Outcome, ok,
  throws, error_runtime,
}
use cpp_alls.Server.Env.{Env}
use cpp_alls.Server.Config.{
  resolve, known_directory, known_file, without_directories, in_file, is_empty,
}

module _ (env : Env) where
  open env use {Node}

  -- The files that a path of the configuration stands for, in the order of their names: itself, and
  -- what its directory holds but for directories and what has no known status.
  abbrev pub files_at : String → List String → List String
  files_at p inside =
      env.sort (without_directories env inside ++ (if known_file env p then p ∷ [] else []))

  -- The applications in a file, as far as they can be read and pushed to the root's.
  abbrev pub taken : Bool → Outcome (List Node) → Option (List Node)
  taken open_ (ok apps) = if is_empty env apps || open_ then some apps else none
  taken open_ _ = none

  abbrev and_then : Option (List Node) → Option (List Node) → Option (List Node)
  and_then none rest = none
  and_then (some apps) none = none
  and_then (some apps) (some rest) = some (apps ++ rest)

  -- The applications in files, if those of each can be read and pushed.
  abbrev pub applications : Bool → List String → Option (List Node)
  applications open_ [] = some []
  applications open_ (p ∷ ps) =
      and_then (taken open_ (in_file env (env.load_file p))) (applications open_ ps)

  -- A path of the configuration with what its directory holds, and that it can be read.
  pub record Listed : Type 0 where
    pub conf : Node
    pub name : String
    pub inside : List String

  abbrev pub IsListed : String → Listed → Type 0
  IsListed config_path l =
      let p = resolve env config_path l.name in
      (env.as_text l.conf ≡ ok l.name)
      × ((if known_directory env p then env.directory p else ok []) ≡ ok l.inside)

  abbrev pub files : String → List Listed → List String
  files config_path [] = []
  files config_path (l ∷ ls) =
      files_at (resolve env config_path l.name) l.inside ++ files config_path ls

  -- What is done to the applications so far, when these are to be appended.
  abbrev IsAppended : List Node → Option (List Node) → Outcome (Unit {0}) × List Node → Type 0
  IsAppended acc o r =
      ((apps : List Node) × (o ≡ some apps) × (r ≡ (ok tt, acc ++ apps)))
      ⊎ ((o ≡ none) × (r.0 ≡ throws error_runtime))

  abbrev pub merged : Node → List Node → Option (List Node) → Outcome (Node × List Node)
  merged root own none = throws error_runtime
  merged root own (some apps) = ok (root, own ++ apps)
