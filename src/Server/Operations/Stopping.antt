-- ===== src/Server/Operations/Stopping.antt =====
-- What the loop that stops the applications does.
use cpp_alls.Prelude.{
  ℕ, ◌≡◌, refl, sym, ap, ◌∙◌, String, List, [], ◌∷◌, ◌++◌, some, Bool, true, false, ◌==◌,
  if◌then◌else◌, map, ok, continue_with, >>=-eq-ok, arith,
}
use mathlib.Core.List.{append_assoc, append-nil}
use cpp_alls.Prelude.Dict.{find}
use cpp_alls.Server.Env.{Env, Event, constructed, started, stopped, reloaded, destroyed}
use cpp_alls.Server.Instances.{Instance, Instances, Server, remember, perform}
use cpp_alls.Server.Operations.{stop_all, stop}

-- Whether the application of that number is running after the calls, if it was before them.
abbrev pub running_from : ℕ → Bool → List Event → Bool
running_from id b [] = b
running_from id b (constructed n ∷ events) = running_from id b events
running_from id b (started n ∷ events) = running_from id (if n == id then true else b) events
running_from id b (reloaded n ∷ events) = running_from id b events
running_from id b (stopped n ∷ events) = running_from id (if n == id then false else b) events
running_from id b (destroyed n ∷ events) = running_from id (if n == id then false else b) events

abbrev pub running : ℕ → List Event → Bool
running id events = running_from id false events

abbrev pub stops : Instances → List Event
stops m = map (λ entry. stopped (Instance.id entry.1)) m

pub running_from_add :
    (id : ℕ) (b : Bool) (xs ys : List Event)
    → running_from id b (xs ++ ys) ≡ running_from id (running_from id b xs) ys
running_from_add id b [] ys = refl
running_from_add id b (constructed n ∷ xs) ys = running_from_add id b xs ys
running_from_add id b (started n ∷ xs) ys = running_from_add id (if n == id then true else b) xs ys
running_from_add id b (reloaded n ∷ xs) ys = running_from_add id b xs ys
running_from_add id b (stopped n ∷ xs) ys = running_from_add id (if n == id then false else b) xs ys
running_from_add id b (destroyed n ∷ xs) ys =
    running_from_add id (if n == id then false else b) xs ys

stays_stopped : (id : ℕ) (m : Instances) → running_from id false (stops m) ≡ false
stays_stopped id [] = refl
stays_stopped id ((name, inst) ∷ m) = ground (arith, stays_stopped id m)

pub stops-all :
    (name : String) (inst : Instance) (m : Instances) (b : Bool)
    → find name m ≡ some inst
    → running_from inst.id b (stops m) ≡ false
stops-all name inst [] b h = absurd (cc h)
stops-all name inst ((k, other) ∷ m) b h =
    ground (
      arith,
      ap {A = Instance} {B = ℕ} Instance.id,
      stays_stopped inst.id m,
      stops-all name inst m b,
    )

module _ (env : Env) where
  pub stop_all-eq-ok :
      (m : Instances) (s t : Server)
      → stop_all env m s ≡ (ok tt, t)
      → t ≡ record s { events = s.events ++ stops m }
  unfolding stop_all
  stop_all-eq-ok [] s t h =
      sym (ap (λ r. r.1) h)
      ∙ ap {A = List Event} {B = Server} (λ x. record s { events = x }) (sym (append-nil s.events))
  stop_all-eq-ok ((name, inst) ∷ m) s t h =
      let (_, u, e, k) = >>=-eq-ok (perform (stopped inst.id) (env.stop_app inst.id)) _ s h in
      let after = stop_all-eq-ok m u t k in
      after
      ∙ ap {A = Server} {B = Server} (λ u. record u { events = u.events ++ stops m })
          (sym (ap (λ r. r.1) e))
      ∙ ap {A = List Event} {B = Server} (λ x. record s { events = x })
          (append_assoc s.events (stopped inst.id ∷ []) (stops m))

  stop_all-events :
      (m : Instances) (s : Server)
      → ((id : ℕ) (events : List Event) → env.stop_app id events ≡ ok tt)
      → stop_all env m s ≡ (ok tt, record s { events = s.events ++ stops m })
  unfolding stop_all
  stop_all-events [] s ready =
      ap (λ x. (ok tt, record s { events = x })) (sym (append-nil s.events))
  stop_all-events ((name, inst) ∷ m) s ready =
      let again = remember (stopped inst.id) s in
      ap (λ r. continue_with (r, again) (λ _. stop_all env m)) (ready inst.id s.events)
      ∙ stop_all-events m again ready
      ∙ ap (λ x. (ok tt, record s { events = x }))
          (append_assoc s.events (stopped inst.id ∷ []) (stops m))

  -- If no application throws from its `stop`, the operation stops each application that the server
  -- holds once, in the order of the map, and leaves the server without applications.
  pub stop-all :
      (s : Server)
      → ((id : ℕ) (events : List Event) → env.stop_app id events ≡ ok tt)
      → stop env s ≡ (
        ok tt,
        record s { instances = []; app_to_path = []; events = s.events ++ stops s.instances },
      )
  unfolding stop
  stop-all s ready =
      ap (λ r. continue_with r (λ _ t. (ok tt, record t { instances = []; app_to_path = [] })))
        (stop_all-events s.instances s ready)
