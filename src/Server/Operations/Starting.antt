-- ===== src/Server/Operations/Starting.antt =====
-- What `start` does with a configuration that it can follow.
use mathlib.Core.List.{append_assoc, append-nil}
use mathlib.Core.Path.{subst}
use cpp_alls.Prelude.{
  ℕ, ◌+◌, ◌≡◌, refl, sym, ap, ◌∙◌, String, List, [], ◌∷◌, ◌++◌, map, length, All, none, some, false,
  str_eq, ok, continue_with, arith,
}
use cpp_alls.Prelude.Dict.{find, emplace-new, find-last}
use cpp_alls.Server.Env.{Env, Event, constructed, started}
use cpp_alls.Server.Config.{read_config, fill_apps_to_path}
use cpp_alls.Server.Instances.{
  Instance, Instances, Server, builtin, text_field, name_or, make, run_instance, start_instance,
}
use cpp_alls.Server.Operations.{start, start_here, start_all, fill_own_apps, init_logger}

-- An application as a configuration has it: its node, its type, its name, and where its type is.
pub record Entry (Node : Type 0) : Type 0 where
  pub node : Node
  pub type : String
  pub path : String
  pub name : String

abbrev pub numbered : {N : Type 0} → ℕ → List (Entry N) → Instances
numbered n [] = []
numbered n (e ∷ es) = (e.name, record { id = n; type = e.type }) ∷ numbered (n + 1) es

abbrev pub starts : {N : Type 0} → ℕ → List (Entry N) → List Event
starts n [] = []
starts n (e ∷ es) = constructed n ∷ (started n ∷ starts (n + 1) es)

abbrev pub IsDistinct : {N : Type 0} → List (Entry N) → Type 0
IsDistinct [] = Unit
IsDistinct (e ∷ es) = All (λ f. str_eq e.name f.name ≡ false) es × IsDistinct es

abbrev IsNew : {N : Type 0} → Instances → List (Entry N) → Type 0
IsNew m es = All (λ e. find e.name m ≡ none) es

IsNew-last :
    {N : Type 0} (e : Entry N) (inst : Instance) (m : Instances) (es : List (Entry N))
    → IsNew m es
    → All (λ f. str_eq e.name f.name ≡ false) es
    → IsNew (m ++ ((e.name, inst) ∷ [])) es
IsNew-last e inst m [] h k = tt
IsNew-last e inst m (f ∷ es) (h, hs) (k, ks) =
    (find-last f.name e.name inst m h k, IsNew-last e inst m es hs ks)

IsNew-empty : {N : Type 0} (es : List (Entry N)) → IsNew [] es
IsNew-empty [] = tt
IsNew-empty (e ∷ es) = (refl, IsNew-empty es)

abbrev with_apps : Server → List (String × String) → Instances → ℕ → List Event → Server
with_apps s apps m n events = record s {
  app_to_path = apps;
  instances = m;
  next_id = n;
  events = events;
}

module _ (env : Env) where
  open env use {Node}

  pub record IsEntry (apps : List (String × String)) (e : Entry Node) : Type 0 where
    pub typed : text_field env e.node "type" ≡ ok e.type
    pub there : find e.type apps ≡ some e.path
    pub named : name_or env e.node e.type ≡ ok e.name

  module _
      (constructs : (path type : String) (events : List Event)
        → env.construct path type events ≡ ok tt)
      (runs : (id : ℕ) (node : Node) (events : List Event)
        → env.start_app id node events ≡ ok tt) where
    start_here-entry :
        (s : Server) (apps : List (String × String)) (e : Entry Node)
        → IsEntry apps e
        → (m : Instances) (n : ℕ) (events : List Event) → find e.name m ≡ none
        → start_here env e.node (with_apps s apps m n events) ≡ (
          ok tt,
          with_apps s apps
              (m ++ ((e.name, record { id = n; type = e.type }) ∷ []))
              (n + 1)
              (events ++ (constructed n ∷ (started n ∷ []))),
        )
    unfolding start_here start_instance make run_instance
    start_here-entry s apps e is m n events new =
        rw
          (
            is.typed,
            is.there,
            constructs e.path e.type events,
            runs n e.node (events ++ (constructed n ∷ [])),
            is.named,
            new,
            emplace-new e.name (record { id = n; type = e.type }) m new,
            append_assoc events (constructed n ∷ []) (started n ∷ []),
          )
          refl

    start_all-entries :
        (s : Server) (apps : List (String × String)) (es : List (Entry Node))
        → All (IsEntry apps) es
        → IsDistinct es
        → (m : Instances) (n : ℕ) (events : List Event) → IsNew m es
        → start_all env (map Entry.node es) (with_apps s apps m n events)
          ≡ (ok tt, with_apps s apps (m ++ numbered n es) (n + length es) (events ++ starts n es))
    unfolding start_all
    start_all-entries s apps [] is d m n events new = λ i.
        (ok tt, with_apps s apps (sym (append-nil m) i) (nothing i) (sym (append-nil events) i))
      where
        nothing : n ≡ n + 0
        nothing = omega arith
    start_all-entries s apps (e ∷ es) (is, iss) (d, ds) m n events (new, news) =
        let entry : String × Instance = (e.name, record { id = n; type = e.type }) in
        let begun : List Event = constructed n ∷ (started n ∷ []) in
        let count : (n + 1) + length es ≡ n + length (e ∷ es) = omega arith in
        ap (λ r. continue_with r (λ _. start_all env (map Entry.node es)))
          (start_here-entry s apps e is m n events new)
        ∙ start_all-entries s apps es iss ds (m ++ (entry ∷ [])) (n + 1) (events ++ begun)
            (IsNew-last e (record { id = n; type = e.type }) m es news d)
        ∙ (λ i. (
          ok tt,
          with_apps s apps (append_assoc m (entry ∷ []) (numbered (n + 1) es) i) (count i)
              (append_assoc events begun (starts (n + 1) es) i),
        ))

  -- `start` of a server that holds no application, on a configuration that can be read and names no
  -- logger, whose applications have different names, are of types that the binaries found provide,
  -- and throw neither when they are made nor when they are started. It returns, and the server holds
  -- exactly these applications, each under its name and of its type; each has been made and then
  -- started once, in the order of the configuration; and messages go to a cpp_logger.
  pub start-entries :
      (s : Server) (root : Node) (es : List (Entry Node)) (apps : List (String × String))
      → read_config env s.config_path ≡ ok (root, map Entry.node es)
      → fill_apps_to_path env s.config_path root s.app_to_path ≡ (ok tt, apps)
      → env.core root "logger" ≡ ok none
      → All (IsEntry apps) es
      → IsDistinct es
      → s.instances ≡ []
      → ((path type : String) (events : List Event) → env.construct path type events ≡ ok tt)
      → ((id : ℕ) (node : Node) (events : List Event) → env.start_app id node events ≡ ok tt)
      → start env s ≡ (
        ok tt,
        record s {
          app_to_path = apps;
          instances = numbered s.next_id es;
          next_id = s.next_id + length es;
          events = s.events ++ starts s.next_id es;
          log = builtin;
        },
      )
  unfolding start fill_own_apps init_logger
  start-entries s root es apps read found none_named is d empty constructs runs =
      let nothing : IsNew s.instances es = subst (λ m. IsNew m es) (sym empty) (IsNew-empty es) in
      rw (read, found)
        (ap (λ r. continue_with r (λ _. init_logger env root))
            (start_all-entries constructs runs s apps es is d s.instances s.next_id s.events
              nothing)
          ∙ rw (none_named, empty) refl)
