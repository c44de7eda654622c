-- ===== src/Server/Operations/Reload.antt =====
-- What reload leaves behind: its last loop stops each application that the new map holds.
use cpp_alls.Prelude.{
  Outcome, ok, throws, undefined, out_of_fuel, lift, ◌≡◌, refl, sym, ap, ◌∙◌, String, List, [], ◌∷◌,
  Option, none, some, Bool, true, false, if◌then◌else◌, str_eq_iff, ok, error_runtime, raise, pure,
  >>=-eq-ok, arith,
}
use cpp_alls.Prelude.Dict.{find, emplace, find-emplace, find-emplace_new}
use cpp_alls.Server.Env.{Env, reloaded}
use cpp_alls.Server.Config.{member, read_config, fill_apps_to_path, catch}
use cpp_alls.Server.Instances.{
  Log, start_instance, Instance, Instances, Server, perform, text_field, name_or,
}
use cpp_alls.Server.Instances.Inversion.{lift-eq-ok, found-eq-ok, start_instance-eq-ok}
use cpp_alls.Server.Operations.{
  stop_all, reload, reload_all, reload_one, reload_name, add_instance, enter, keep_instance,
  finish_reload, init_logger, choose_logger, get_logger, get, check_apps, filled,
}
use cpp_alls.Server.Operations.Stopping.{
  running, running_from_add, stops, stops-all, stop_all-eq-ok,
}

-- What the new map holds, `instances_` holds too.
abbrev Covered : Instances → Instances → Type 0
Covered new old = (k : String) (i : Instance) → find k new ≡ some i → find k old ≡ some i

Covered-keep :
    (new old : Instances) (name : String) (inst : Instance)
    → find name old ≡ some inst
    → Covered new old
    → Covered (emplace name inst new) old
Covered-keep new old name inst h c k i e =
    ground (arith, str_eq_iff name k, find-emplace name k inst new, c name i, c k i, e, h)

Covered-add :
    (new old : Instances) (name : String) (inst : Instance)
    → find name old ≡ none
    → find name new ≡ none
    → Covered new old
    → Covered (emplace name inst new) (emplace name inst old)
Covered-add new old name inst h n c k i e = ground (
  arith,
  str_eq_iff name k,
  find-emplace name k inst new,
  find-emplace name k inst old,
  c k i,
  e,
  h,
  n,
)

module _ (env : Env) where
  open env use {Node}

  names_agree :
      (node : Node) (type name other : String) (o : Outcome (Option Node))
      → (elim o [
        | ok none ↦ text_field env node "type"
        | ok (some n) ↦ env.as_text n
        | throws e ↦ throws e
        | undefined ↦ undefined
        | out_of_fuel ↦ out_of_fuel
      ])
        ≡ ok name
      → text_field env node "type" ≡ ok type
      → (elim o [
        | ok none ↦ ok type
        | ok (some n) ↦ catch (env.as_text n) type
        | throws e ↦ throws e
        | undefined ↦ undefined
        | out_of_fuel ↦ out_of_fuel
      ])
        ≡ ok other
      → other ≡ name
  names_agree node type name other (ok none) h e f = cc (sym f, sym e ∙ h)
  names_agree node type name other (ok (some n)) h e f = cc (sym f ∙ ap (λ r. catch r type) h)
  names_agree node type name other (throws x) h e f = absurd (cc h)
  names_agree node type name other undefined h e f = absurd (cc h)
  names_agree node type name other out_of_fuel h e f = absurd (cc h)

  -- The name that reload looks up is the name under which start_instance enters the application.
  reload_name-name_or :
      (node : Node) (type name other : String)
      → reload_name env node ≡ ok name
      → text_field env node "type" ≡ ok type
      → name_or env node type ≡ ok other
      → other ≡ name
  reload_name-name_or node type name other h e f =
      names_agree node type name other (member env node "instance-name") h e f

  enter-eq-ok :
      (name : String) (m1 m : Instances) (o : Option Instance) (inst : Instance) (s t : Server)
      → o ≡ some inst
      → enter env name m1 o s ≡ (ok m, t)
      → (m1 ≡ m) × (emplace name inst s.instances ≡ t.instances)
  enter-eq-ok name m1 m none inst s t q h = absurd (cc q)
  enter-eq-ok name m1 m (some other) inst s t q h = (
    cc (ap (λ r. r.0) h),
    ap {A = Instance} (λ i. emplace name i s.instances) (sym (cc q))
        ∙ ap (λ r. Server.instances r.1) h,
  )

  reload_one-Covered :
      (node : Node) (apps : List (String × String)) (name : String) (new m : Instances)
      (o : Option Instance) (s t : Server)
      → reload_name env node ≡ ok name
      → find name s.instances ≡ o
      → reload_one env node apps name new o s ≡ (ok m, t)
      → Covered new s.instances
      → Covered m t.instances
  unfolding add_instance keep_instance
  reload_one-Covered node apps name new m none s t called absent h c =
      let (m1, u, e, k) = >>=-eq-ok (start_instance env node apps new) _ s h in
      let a = start_instance-eq-ok env node apps new m1 s u e in
      let called_so = reload_name-name_or node a.type name a.name called a.typed a.named in
      let new_name = ap (λ n. find n new) (sym called_so) ∙ a.new in
      let map : m1 ≡ emplace name a.inst new = a.map ∙ ap (λ n. emplace n a.inst new) called_so in
      let (same, entered) =
        enter-eq-ok name m1 m (find name m1) a.inst u t
          (ap (find name) map ∙ find-emplace_new name a.inst new new_name) k in
      let state = sym entered ∙ ap (emplace name a.inst) a.instances in
      λ j i q.
        ap (find j) state
        ∙ Covered-add new s.instances name a.inst absent new_name c j i
            (ap (find j) (sym map ∙ same) ∙ q)
  reload_one-Covered node apps name new m (some inst) s t called present h c =
      let (_, u, e, k) =
        >>=-eq-ok (perform (reloaded inst.id) (env.reload_app inst.id node)) _ s h in
      let same : emplace name inst new ≡ m = cc (ap (λ r. r.0) k) in
      let kept : s.instances ≡ t.instances =
        ap (λ r. Server.instances r.1) e ∙ ap (λ r. Server.instances r.1) k in
      λ j i q.
        ap (find j) (sym kept)
        ∙ Covered-keep new s.instances name inst present c j i (ap (find j) same ∙ q)

  reload_all-Covered :
      (nodes : List Node) (apps : List (String × String)) (new m : Instances) (s t : Server)
      → reload_all env nodes apps new s ≡ (ok m, t)
      → Covered new s.instances
      → Covered m t.instances
  unfolding reload_all
  reload_all-Covered [] apps new m s t h c =
      let same : new ≡ m = cc (ap (λ r. r.0) h) in
      let state : s ≡ t = ap (λ r. r.1) h in
      λ k i q. ap (λ s. find k (Server.instances s)) (sym state) ∙ c k i (ap (find k) same ∙ q)
  reload_all-Covered (node ∷ nodes) apps new m s t h c =
      let (name, u, e, k) = >>=-eq-ok (lift (reload_name env node)) _ s h in
      let (m1, v, f, l) =
        >>=-eq-ok (λ s. reload_one env node apps name new (find name s.instances) s) _ u k in
      reload_all-Covered nodes apps m1 m v t l (
        reload_one-Covered node apps name new m1 (find name u.instances) u v
          (lift-eq-ok (reload_name env node) s u name e).0 refl f
          (λ j i q.
            ap (λ s. find j (Server.instances s)) (lift-eq-ok (reload_name env node) s u name e).1
            ∙ c j i q))

  if-eq-ok :
      (b : Bool) (inst i : Instance) (s t : Server)
      → (if b then pure {S = Server} inst else raise {S = Server} {A = Instance} error_runtime) s
        ≡ (ok i, t)
      → t ≡ s
  if-eq-ok true inst i s t h = sym (ap (λ r. r.1) h)
  if-eq-ok false inst i s t h = absurd (cc (ap (λ r. r.0) h))

  get_logger-eq-ok :
      (name : String) (inst : Instance) (s t : Server)
      → get_logger env name s ≡ (ok inst, t)
      → t ≡ s
  unfolding get_logger get
  get_logger-eq-ok name inst s t h =
      let (i, u, e, k) = >>=-eq-ok (get name) _ s h in
      if-eq-ok (env.is_logger i.type) i inst u t k ∙ (found-eq-ok (find name s.instances) s u i e).1

  choose_logger-eq-ok :
      (o : Option Node) (log : Log) (s t : Server) → choose_logger env o s ≡ (ok log, t) → t ≡ s
  choose_logger-eq-ok none log s t h = sym (ap (λ r. r.1) h)
  choose_logger-eq-ok (some n) log s t h =
      let (name, u, e, k) = >>=-eq-ok (lift (env.as_text n)) _ s h in
      let (inst, v, f, l) = >>=-eq-ok (get_logger env name) _ u k in
      sym (ap (λ r. r.1) l) ∙ get_logger-eq-ok name inst u v f ∙ sym (ap (λ r. r.1) e)

  init_logger-eq-ok :
      (root : Node) (s t : Server)
      → init_logger env root s ≡ (ok tt, t)
      → (t.instances ≡ s.instances) × (t.events ≡ s.events)
  unfolding init_logger
  init_logger-eq-ok root s t h =
      let (chosen, u, e, k) = >>=-eq-ok (lift (env.core root "logger")) _ s h in
      let (log, v, f, l) = >>=-eq-ok (choose_logger env chosen) _ u k in
      let same = choose_logger-eq-ok chosen log u v f ∙ sym (ap (λ r. r.1) e) in
      (
        sym (ap (λ r. Server.instances r.1) l) ∙ ap Server.instances same,
        sym (ap (λ r. Server.events r.1) l) ∙ ap Server.events same,
      )

  finish_reload-stopped :
      (root : Node) (apps : List (String × String)) (new : Instances) (s t : Server) (name : String)
      (inst : Instance)
      → Covered new s.instances
      → finish_reload env root apps new s ≡ (ok tt, t)
      → find name t.instances ≡ some inst
      → running inst.id t.events ≡ false
  unfolding finish_reload
  finish_reload-stopped root apps new s t name inst c h held =
      let (_, u, e, k) = >>=-eq-ok (λ s. stop_all env s.instances s) _ s h in
      let (instances, events) =
        init_logger-eq-ok root (record u { instances = new; app_to_path = apps }) t k in
      let was = c name inst (ap (find name) (sym instances) ∙ held) in
      ap (running inst.id) (events ∙ ap Server.events (stop_all-eq-ok env s.instances s u e))
      ∙ running_from_add inst.id false s.events (stops s.instances)
      ∙ stops-all name inst s.instances (running inst.id s.events) was

  -- After a reload that succeeds, every application that the server holds has been stopped, and is
  -- not running: those that it held before and reloaded, and those that it has just started.
  pub reload-stopped :
      (s t : Server) (name : String) (inst : Instance)
      → reload env s ≡ (ok tt, t)
      → find name t.instances ≡ some inst
      → running inst.id t.events ≡ false
  unfolding reload
  reload-stopped s t name inst h held =
      let ((root, nodes), u, e, k) = >>=-eq-ok (lift (read_config env s.config_path)) _ s h in
      let (apps, v, f, l) =
        >>=-eq-ok (lift (filled env (fill_apps_to_path env s.config_path root []))) _ u k in
      let (_, w, g, q) = >>=-eq-ok (check_apps env apps) _ v l in
      let (new, x, i, j) = >>=-eq-ok (reload_all env nodes apps []) _ w q in
      finish_reload-stopped root apps new x t name inst
        (reload_all-Covered nodes apps [] new w x i (λ k i q. absurd (cc q))) j held
