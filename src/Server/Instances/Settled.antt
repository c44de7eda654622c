-- ===== src/Server/Instances/Settled.antt =====
-- What start_instance leaves behind, whatever it returns or throws.
use cpp_alls.Prelude.{
  ◌+◌, ◌≡◌, ◌⊎◌, String, List, [], ◌∷◌, ◌++◌, none, some, Outcome, ok, throws, undefined,
  out_of_fuel,
}
use cpp_alls.Prelude.Dict.{find, emplace}
use cpp_alls.Server.Env.{Env, Event, constructed, started, destroyed}
use cpp_alls.Server.Instances.{Instance, Instances, Server, remember, text_field, name_or}

module _ (env : Env) (node : env.Node) (apps : List (String × String)) (into : Instances)
    (s : Server) where
  -- One object has been made, on which these calls have been made; nothing else has changed.
  abbrev pub after : List Event → Server
  after events = record s { next_id = s.next_id + 1; events = s.events ++ events }

  abbrev pub IsSettled : Outcome Instances × Server → Type 0
  IsSettled (ok m, t) =
      (type : String) × (path : String) × (name : String) × (text_field env node "type" ≡ ok type)
      × (find type apps ≡ some path)
      × (name_or env node type ≡ ok name)
      × (find name into ≡ none)
      × (m ≡ emplace name (record { id = s.next_id; type = type }) into)
      × (t ≡ after (constructed s.next_id ∷ (started s.next_id ∷ [])))
  IsSettled (throws e, t) =
      (t ≡ s)
      ⊎ (t ≡ after (constructed s.next_id ∷ (started s.next_id ∷ (destroyed s.next_id ∷ []))))
  IsSettled (undefined, t) = Unit
  IsSettled (out_of_fuel, t) = Unit

  abbrev inst_of : String → Instance
  inst_of type = record { id = s.next_id; type = type }

  abbrev ran : Server
  ran = remember (started s.next_id) (after (constructed s.next_id ∷ []))
