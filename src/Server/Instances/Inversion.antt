-- ===== src/Server/Instances/Inversion.antt =====
-- What a start_instance that succeeds has done.
use cpp_alls.Prelude.{
  lift, ℕ, ◌+◌, ◌≡◌, refl, sym, ap, ◌∙◌, String, List, [], ◌∷◌, ◌++◌, Option, none, some, Outcome,
  ok, throws, undefined, out_of_fuel, >>=-eq-ok,
}
use cpp_alls.Prelude.Dict.{find, emplace}
use cpp_alls.Server.Env.{Env, constructed, started}
use cpp_alls.Server.Instances.{
  Instance, Instances, Server, remember, found, dropped, perform, text_field, name_or, make,
  insert_new, run_instance, start_instance,
}

dropped-eq-ok :
    {A : Type 0} (id : ℕ) (r : Outcome A) (s t : Server) (a : A)
    → dropped id (r, s) ≡ (ok a, t)
    → ◌≡◌ {A = Outcome A × Server} (r, s) (ok a, t)
dropped-eq-ok id (ok x) s t a h = h
dropped-eq-ok id (throws e) s t a h = absurd (cc (ap (λ r. r.0) h))
dropped-eq-ok id undefined s t a h = absurd (cc (ap (λ r. r.0) h))
dropped-eq-ok id out_of_fuel s t a h = absurd (cc (ap (λ r. r.0) h))

pub lift-eq-ok :
    {A : Type 0} (r : Outcome A) (s t : Server) (a : A)
    → lift r s ≡ (ok a, t)
    → (r ≡ ok a) × (t ≡ s)
lift-eq-ok r s t a h = (ap (λ r. r.0) h, sym (ap (λ r. r.1) h))

pub found-eq-ok :
    {A : Type 0} (o : Option A) (s t : Server) (a : A)
    → found o s ≡ (ok a, t)
    → (o ≡ some a) × (t ≡ s)
found-eq-ok none s t a h = absurd (cc (ap (λ r. r.0) h))
found-eq-ok (some x) s t a h = (cc (ap (λ r. r.0) h), sym (ap (λ r. r.1) h))

module _ (env : Env) where
  open env use {Node}

  -- One new entry is the only change to the map, and `instances_` is as it was.
  pub record Added (node : Node) (into m : Instances) (s t : Server) : Type 0 where
    pub type : String
    pub name : String
    pub inst : Instance
    pub typed : text_field env node "type" ≡ ok type
    pub named : name_or env node type ≡ ok name
    pub new : find name into ≡ none
    pub map : m ≡ emplace name inst into
    pub instances : t.instances ≡ s.instances

  insert_new-eq-ok :
      (name : String) (inst : Instance) (into m : Instances) (o : Option Instance) (s t : Server)
      → insert_new env name inst into o s ≡ (ok m, t)
      → (o ≡ none) × (m ≡ emplace name inst into) × (t ≡ s)
  insert_new-eq-ok name inst into m none s t h = (refl, cc (ap (λ r. r.0) h), sym (ap (λ r. r.1) h))
  insert_new-eq-ok name inst into m (some other) s t h = absurd (cc (ap (λ r. r.0) h))

  make-eq-ok :
      (path type : String) (s t : Server) (inst : Instance)
      → make env path type s ≡ (ok inst, t)
      → (inst ≡ record { id = s.next_id; type = type })
        × (t ≡ record s {
          next_id = s.next_id + 1;
          events = s.events ++ (constructed s.next_id ∷ []);
        })
  unfolding make
  make-eq-ok path type s t inst h =
      let (_, u, e, k) =
        >>=-eq-ok (λ s. (env.construct path type s.events, s))
          (λ _ t. (
            ok (record { id = t.next_id; type = type }),
            record t { next_id = t.next_id + 1; events = t.events ++ (constructed t.next_id ∷ []) },
          ))
          s h in
      let same = sym (ap (λ r. r.1) e) in
      (
        cc (ap (λ r. r.0) k)
            ∙ ap {A = Server} {B = Instance} (λ u. record { id = u.next_id; type = type }) same,
        sym (ap (λ r. r.1) k)
            ∙ ap {A = Server} {B = Server}
                (λ u. record u {
                  next_id = u.next_id + 1;
                  events = u.events ++ (constructed u.next_id ∷ []);
                })
                same,
      )

  run_instance-eq-ok :
      (node : Node) (inst : Instance) (into m : Instances) (s t : Server)
      → run_instance env node inst into s ≡ (ok m, t)
      → (name : String) × (name_or env node inst.type ≡ ok name)
        × (find name into ≡ none)
        × (m ≡ emplace name inst into)
        × (t ≡ remember (started inst.id) s)
  unfolding run_instance
  run_instance-eq-ok node inst into m s t h =
      let (_, u, e, k) = >>=-eq-ok (perform (started inst.id) (env.start_app inst.id node)) _ s h in
      let (name, v, f, l) = >>=-eq-ok (lift (name_or env node inst.type)) _ u k in
      let (new, map, last) = insert_new-eq-ok name inst into m (find name into) v t l in
      let (named, same) = lift-eq-ok (name_or env node inst.type) u v name f in
      (name, named, new, map, last ∙ same ∙ sym (ap (λ r. r.1) e))

  pub start_instance-eq-ok :
      (node : Node) (apps : List (String × String)) (into m : Instances) (s t : Server)
      → start_instance env node apps into s ≡ (ok m, t)
      → Added node into m s t
  unfolding start_instance
  start_instance-eq-ok node apps into m s t h =
      let (type, u, e, k) = >>=-eq-ok (lift (text_field env node "type")) _ s h in
      let (path, v, f, l) = >>=-eq-ok (found (find type apps)) _ u k in
      let (inst, w, g, q) = >>=-eq-ok (make env path type) _ v l in
      let (typed, us) = lift-eq-ok (text_field env node "type") s u type e in
      let (_, vu) = found-eq-ok (find type apps) u v path f in
      let (made, wv) = make-eq-ok path type v w inst g in
      let (name, named, new, map, tw) = run_instance-eq-ok node inst into m w t (
        dropped-eq-ok inst.id (run_instance env node inst into w).0
          (run_instance env node inst into w).1 t m q) in
      record {
        type = type;
        name = name;
        inst = inst;
        typed = typed;
        named = ap (λ i. name_or env node (Instance.type i)) (sym made) ∙ named;
        new = new;
        map = map;
        instances =
            ap Server.instances tw
            ∙ ap Server.instances wv
            ∙ ap Server.instances vu
            ∙ ap Server.instances us;
      }
