-- ===== src/Server/Config/Types.antt =====
-- The application types that are found in the binaries: none is entered twice.
use cpp_alls.Prelude.{
  inl, inr, String, List, [], ◌∷◌, Option, none, some, Bool-cases, if◌then◌else◌, M, Outcome, pure,
  lift, ◌>>=◌, ◌>>◌, continue_with-keeps,
}
use cpp_alls.Prelude.Maps.{IsMap, emplace-IsMap}
use cpp_alls.Prelude.Dict.{emplace}
use cpp_alls.Server.Env.{Env}
use cpp_alls.Server.Config.{
  catch, known_file, resolve, without_directories, emplace_all, search_in_binary,
  search_in_binaries, find_apps_in_entry, find_apps_in_entries, find_apps_in_bins,
  fill_apps_to_path,
}

module _ (env : Env) where
  -- An action on the map of types that leaves it a map, also by an exception.
  abbrev Keeps : M (List (String × String)) (Unit {0}) → Type 0
  Keeps f = (m : List (String × String)) → IsMap m → IsMap (f m).1

  >>-Keeps : (f g : M (List (String × String)) (Unit {0})) → Keeps f → Keeps g → Keeps (f >> g)
  >>-Keeps f g kf kg m h =
      continue_with-keeps IsMap (f m).0 (f m).1 (λ _. g) (kf m h) (λ _. kg (f m).1 (kf m h))

  lift-Keeps :
      {A : Type 0} (r : Outcome A) (f : A → M (List (String × String)) (Unit {0}))
      → ((a : A) → Keeps (f a))
      → Keeps (lift r >>= f)
  lift-Keeps r f k m h = continue_with-keeps IsMap r m f h (λ a. k a m h)

  emplace_all-Keeps :
      (symbols : List String) (p : String) (m : List (String × String))
      → IsMap m
      → IsMap (emplace_all env symbols p m)
  unfolding emplace_all
  emplace_all-Keeps [] p m h = h
  emplace_all-Keeps (app ∷ symbols) p m h =
      emplace_all-Keeps symbols p (emplace app p m) (emplace-IsMap app p m h)

  search_in_binary-Keeps : (p : String) → Keeps (search_in_binary env p)
  unfolding search_in_binary
  search_in_binary-Keeps p =
      lift-Keeps (catch (env.symbols p) []) _ (λ symbols m h. emplace_all-Keeps symbols p m h)

  search_in_binaries-Keeps : (ps : List String) → Keeps (search_in_binaries env ps)
  unfolding search_in_binaries
  search_in_binaries-Keeps [] m h = h
  search_in_binaries-Keeps (p ∷ ps) m h =
      >>-Keeps (search_in_binary env p) (search_in_binaries env ps) (search_in_binary-Keeps p)
        (search_in_binaries-Keeps ps) m h

  file-Keeps : (p : String) → Keeps (if known_file env p then search_in_binary env p else pure tt)
  file-Keeps p m h = elim (Bool-cases (known_file env p)) [
    | inl file ↦ rw file (search_in_binary-Keeps p m h)
    | inr other ↦ rw other h
  ]

  find_apps_in_entry-Keeps : (path entry : String) → Keeps (find_apps_in_entry env path entry)
  unfolding find_apps_in_entry
  find_apps_in_entry-Keeps path entry =
      lift-Keeps (env.directory (resolve env path entry)) _ (λ inside.
        >>-Keeps (search_in_binaries env (without_directories env inside)) _
          (search_in_binaries-Keeps _) (file-Keeps (resolve env path entry)))

  find_apps_in_entries-Keeps :
      (path : String) (vs : List env.Node) → Keeps (find_apps_in_entries env path vs)
  unfolding find_apps_in_entries
  find_apps_in_entries-Keeps path [] m h = h
  find_apps_in_entries-Keeps path (v ∷ vs) m h =
      lift-Keeps (env.as_text v) _
        (λ entry.
          >>-Keeps (find_apps_in_entry env path entry) _ (find_apps_in_entry-Keeps path entry)
            (find_apps_in_entries-Keeps path vs))
        m h

  find_apps_in_bins-Keeps :
      (path : String) (bins : Option env.Node) → Keeps (find_apps_in_bins env path bins)
  unfolding find_apps_in_bins
  find_apps_in_bins-Keeps path none m h = find_apps_in_entry-Keeps path "./apps/" m h
  find_apps_in_bins-Keeps path (some bins) m h = elim (Bool-cases (env.is_scalar bins)) [
    | inl scalar ↦ rw scalar (lift-Keeps (env.as_text bins) _ (find_apps_in_entry-Keeps path) m h)
    | inr other ↦ elim (Bool-cases (env.is_sequence bins)) [
      | inl sequence ↦
          rw (other, sequence) (find_apps_in_entries-Keeps path (env.elements bins) m h)
      | inr neither ↦ rw (other, neither) h
    ]
  ]

  -- Whatever the configuration and the binaries are, the types that fill_apps_to_path leaves are a map
  -- if those that it is given are.
  pub fill_apps_to_path-Keeps :
      (path : String) (config : env.Node) (m : List (String × String))
      → IsMap m
      → IsMap (fill_apps_to_path env path config m).1
  unfolding fill_apps_to_path
  fill_apps_to_path-Keeps path config =
      lift-Keeps (env.symbols env.this_line_location) _ (λ own m h.
        lift-Keeps (env.core config "binaries") _ (find_apps_in_bins-Keeps path)
          (emplace_all env own env.this_line_location m)
          (emplace_all-Keeps own env.this_line_location m h))
