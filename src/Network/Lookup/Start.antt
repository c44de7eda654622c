-- ===== src/Network/Lookup/Start.antt =====
-- A server of class tcp that is started by the configuration of a running server.
use cpp_alls.Prelude.{
  ℕ, ◌+◌, ◌<◌, ◌≡◌, refl, ◌∙◌, ◌⊎◌, inl, inr, String, [], ◌∷◌, ◌++◌, none, some, Option-cases,
  Bool-cases, Bool, true, false, ◌&&◌, ok, throws, error_runtime,
}
use cpp_alls.Prelude.Dict.{find}
use cpp_alls.Server.Env.{Env}
use cpp_alls.Server.Instances.{Instance, Server, text_field}
use cpp_alls.Server.Operations.{get, get_as}
use cpp_alls.Network.{Config, Accept, Host}
use cpp_alls.Network.Lookup.{Services, endpoint, configured}
use cpp_alls.Network.Tcp.{Tcp, accept, start}
use cpp_alls.Network.Tcp.Invariant.{accept-ok}

-- The running server has an application of this name whose type is of the kind asked for.
abbrev pub has : (String → Bool) → String → Server → Bool
has is_type name s = elim (find name s.instances) [ none ↦ false | some inst ↦ is_type inst.type ]

get_as-has :
    (is_type : String → Bool) (name : String) (s : Server)
    → ((inst : Instance) × (has is_type name s ≡ true)
        × (find name s.instances ≡ some inst)
        × (get_as is_type name s ≡ (ok inst, s)))
      ⊎ ((has is_type name s ≡ false) × (get_as is_type name s ≡ (throws error_runtime, s)))
unfolding get
get_as-has is_type name s = elim (Option-cases (find name s.instances)) [
  | inl e ↦ inr (rw (e, has) refl, rw e refl)
  | inr (inst, e) ↦ elim (Bool-cases (is_type inst.type)) [
    | inl typed ↦ inl (inst, rw (e, has) typed, e, rw (e, typed) refl)
    | inr wrong ↦ inr (rw (e, has) wrong, rw (e, wrong) refl)
  ]
]

abbrev pub begun : ℕ → ℕ → ℕ → Bool → Tcp → Tcp
begun logger processor io_service nodelay t = record t {
  log = some logger;
  processor = some processor;
  io_service = some io_service;
  acceptor = some t.next_acceptor;
  next_acceptor = t.next_acceptor + 1;
  nodelay = nodelay;
}

-- What `start` does where each application is there, and what it does where one is not.
module _ (host : Host) (conf : Config) (t : Tcp) where
  start-begun :
      (l p i : ℕ)
      → conf.logger ≡ ok l
      → conf.processor ≡ ok p
      → conf.io_service ≡ ok i
      → conf.endpoint ≡ ok tt
      → conf.listen ≡ ok tt
      → conf.set_reuse_address ≡ ok tt
      → start host conf t ≡ accept host (begun l p i conf.nodelay t)
  unfolding start
  start-begun l p i el ep ei ee es er = elim (Bool-cases conf.reuse_address) [
    | inl reused ↦ rw (el, ep, ei, ee, es, reused, er) refl
    | inr kept ↦ rw (el, ep, ei, ee, es, kept) refl
  ]

  -- No acceptor has been made, and no accept begun.
  abbrev pub IsRefused : Type 0
  IsRefused =
      ((start host conf t).0 ≡ throws error_runtime)
      × ((start host conf t).1.acceptor ≡ t.acceptor)
      × ((start host conf t).1.accepts ≡ t.accepts)

  no_logger : conf.logger ≡ throws error_runtime → IsRefused
  unfolding start
  no_logger el = rw el (refl, refl, refl)

  no_processor : (l : ℕ) → conf.logger ≡ ok l → conf.processor ≡ throws error_runtime → IsRefused
  unfolding start
  no_processor l el ep = rw (el, ep) (refl, refl, refl)

  no_io_service :
      (l p : ℕ)
      → conf.logger ≡ ok l
      → conf.processor ≡ ok p
      → conf.io_service ≡ throws error_runtime
      → IsRefused
  unfolding start
  no_io_service l p el ep ei = rw (el, ep, ei) (refl, refl, refl)

abbrev pub has_all : (env : Env) → Services env.Node → Server → String → String → String → Bool
has_all env net s logger processor io_service =
    has env.is_logger logger s
    && (has net.is_connection_processor processor s && has net.is_io_service io_service s)

module _ (env : Env) (net : Services env.Node) (host : Host) (small : host.handler_size < 1020)
    (s : Server) (node : env.Node) (logger processor io_service : String) where
  -- A start of class tcp on a configuration that names a logger, a processor and an io_service, and
  -- on which the endpoint can be made and listened on. Either the running server has, under these
  -- names, applications of these kinds: then the start succeeds, its members are these applications,
  -- the new acceptor and `nodelay`, and one accept more is under way, on the new acceptor. Or it has
  -- not: then the start throws an error_runtime, and acceptor and accepts are as before. A handler
  -- has fewer than 1020 bytes.
  pub start-configured :
      text_field env node "logger" ≡ ok logger
      → text_field env node "processor" ≡ ok processor
      → text_field env node "io_service" ≡ ok io_service
      → (address : String) (port : ℕ) → endpoint env net node s ≡ (ok (address, port), s)
      → ((i : ℕ) → net.listen i address port ≡ ok tt)
      → net.set_reuse_address ≡ ok tt
      → (t : Tcp)
      → ((l : Instance) × (p : Instance) × (i : Instance) × (a : Accept) × (has_all env net s logger
              processor io_service
            ≡ true)
          × (find logger s.instances ≡ some l)
          × (find processor s.instances ≡ some p)
          × (find io_service s.instances ≡ some i)
          × (start host (configured env net s node) t ≡ (
            ok tt,
            record (begun l.id p.id i.id (configured env net s node).nodelay t) {
              accepts = t.accepts ++ (a ∷ []);
            },
          ))
          × (a.acceptor ≡ t.next_acceptor)
          × (a.result ≡ none))
        ⊎ ((has_all env net s logger processor io_service ≡ false)
            × IsRefused host (configured env net s node) t)
  start-configured tl tp ti address port ee es er t =
      let conf = configured env net s node in
      elim (get_as-has env.is_logger logger s) [
        | inr (hl, gl) ↦ inr (rw (hl, has_all) refl, no_logger host conf t (rw (tl, gl) refl))
        | inl (l, hl, fl, gl) ↦
            let el : conf.logger ≡ ok l.id = rw (tl, gl) refl in
            elim (get_as-has net.is_connection_processor processor s) [
              | inr (hp, gp) ↦
                  inr
                    (rw (hl, hp, has_all) refl, no_processor host conf t l.id el (rw (tp, gp) refl))
              | inl (p, hp, fp, gp) ↦
                  let ep : conf.processor ≡ ok p.id = rw (tp, gp) refl in
                  elim (get_as-has net.is_io_service io_service s) [
                    | inr (hi, gi) ↦ inr (
                      rw (hl, hp, hi, has_all) refl,
                      no_io_service host conf t l.id p.id el ep (rw (ti, gi) refl),
                    )
                    | inl (i, hi, fi, gi) ↦
                        let ei : conf.io_service ≡ ok i.id = rw (ti, gi) refl in
                        let started =
                          start-begun host conf t l.id p.id i.id el ep ei (rw ee refl)
                            (rw (ti, gi, ee, es i.id) refl) er in
                        let (a, done, r, n, made) =
                          accept-ok host small (begun l.id p.id i.id conf.nodelay t)
                            (i.id, p.id, t.next_acceptor, refl, refl, refl) in
                        inl (
                          l,
                          p,
                          i,
                          a,
                          rw (hl, hp, hi, has_all) refl,
                          fl,
                          fp,
                          fi,
                          started ∙ done,
                          cc n,
                          r,
                        )
                  ]
            ]
      ]
