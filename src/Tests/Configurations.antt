-- ===== src/Tests/Configurations.antt =====
-- A configuration whose root names one directory with two files and a broken entry in it.
use cpp_alls.Prelude.{List, [], ◌∷◌, some, not, str_eq, if◌then◌else◌, ok, throws, yaml_error}
use cpp_alls.Server.Env.{Env}
use cpp_alls.Server.Config.Merged.{Listed}
use cpp_alls.Tests.Applications.{host}

-- Every node has applications, its own text and a fixed one; the file `bad` cannot be loaded, and the
-- status of `lost` is not known.
abbrev many : Env
many = record host {
  load_file = λ p. if str_eq p "bad" then throws yaml_error else ok p;
  field = λ n key. some n;
  core = λ n key. ok (some "conf.d");
  is_sequence = λ n. not (str_eq n "conf.d");
  elements = λ n. n ∷ ("echo" ∷ []);
  is_directory = λ p. str_eq p "conf.d";
  status_error = λ p. str_eq p "lost";
  directory = λ p. ok ("a" ∷ "lost" ∷ "b" ∷ []);
}

abbrev listing : List (Listed many)
listing = record { conf = "conf.d"; name = "conf.d"; inside = "a" ∷ "lost" ∷ "b" ∷ [] } ∷ []
