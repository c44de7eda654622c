-- ===== src/Server/Operations/Changed.antt =====
-- How reload compares the application types that it finds with those of the running server.
use mathlib.Core.Path.{subst}
use cpp_alls.Prelude.{
  ◌≡◌, ◌≢◌, ◌⊎◌, inl, inr, refl, sym, ap, ◌∙◌, String, List, [], ◌∷◌, some, Option-cases,
  Bool-cases, true, false, ◌&&◌, ◌==◌, str_eq, str_eq_iff, length, ok, throws, error_runtime, arith,
  ◌>>=◌,
}
use cpp_alls.Prelude.Dict.{find}
use cpp_alls.Prelude.Maps.{IsMap, Includes, Includes-back, Includes-find, same-length}
use cpp_alls.Server.Env.{Env}
use cpp_alls.Server.Config.{read_config, fill_apps_to_path}
use cpp_alls.Server.Config.Types.{fill_apps_to_path-Keeps}
use cpp_alls.Server.Instances.{Server}
use cpp_alls.Server.Operations.{is_in, same_map, reload, reload_all, finish_reload}

-- Maps that give every key the same value, or none.
abbrev pub IsSame : List (String × String) → List (String × String) → Type 0
IsSame m n = (k : String) → find k m ≡ find k n

is_in-Includes : (m n : List (String × String)) → is_in m n ≡ true → Includes m n
is_in-Includes [] n h k v held = absurd (cc held)
is_in-Includes ((j, w) ∷ m) n h k v held = elim (Option-cases (find j n)) [
  | inl nothing ↦ absurd (cc (rw nothing at h))
  | inr (u, first) ↦
      let both : (str_eq u w && is_in m n) ≡ true = rw first at h in
      let equal : u ≡ w = (str_eq_iff u w).0 (ground (arith, both)) in
      elim (Bool-cases (str_eq j k)) [
        | inl same ↦
            let key : j ≡ k = (str_eq_iff j k).0 same in
            let value : some w ≡ some v = rw same at held in
            ap (λ i. find i n) (sym key) ∙ first ∙ ap some equal ∙ value
        | inr other ↦ is_in-Includes m n (ground (arith, both)) k v (rw other at held)
      ]
]

Includes-is_in : (m n : List (String × String)) → IsMap m → Includes m n → is_in m n ≡ true
Includes-is_in [] n hm h = refl
Includes-is_in ((j, w) ∷ m) n (new, hm) h =
    let first : find j n ≡ some w = h j w (rw ((str_eq_iff j j).1 refl) refl) in
    let rest : Includes m n = λ k v held. elim (Bool-cases (str_eq j k)) [
      | inl same ↦
          let key : j ≡ k = (str_eq_iff j k).0 same in
          absurd (cc (sym new ∙ ap (λ i. find i m) key ∙ held))
      | inr other ↦ h k v (rw other held)
    ] in
    rw (first, (str_eq_iff w w).1 refl, Includes-is_in m n hm rest) refl

length-nil : (m : List (String × String)) → length m ≡ 0 → m ≡ []
length-nil [] e = refl
length-nil (x ∷ m) e = absurd (omega (arith, e))

-- What `operator ==` of two maps says.
pub same_map-IsSame :
    (m n : List (String × String))
    → IsMap m
    → IsMap n
    → ((same_map m n ≡ true) × IsSame m n) ⊎ ((same_map m n ≡ false) × (¬ (IsSame m n)))
same_map-IsSame m n hm hn = elim (Bool-cases (same_map m n)) [
  | inl yes_ ↦
      let long : length m ≡ length n = ground (arith, yes_) in
      let within = is_in-Includes m n (ground (arith, yes_)) in
      inl (yes_, Includes-find m n within (Includes-back m n hm hn long within))
  | inr no_ ↦ inr (
    no_,
    λ same.
        let long : length m ≡ length n = same-length m n hm hn same in
        let within : is_in m n ≡ true = Includes-is_in m n hm (λ k v held. sym (same k) ∙ held) in
        absurd (ground (arith, no_, long, within)),
  )
]

module _ (env : Env) where
  -- A reload of a server whose map of application types has no type twice, where the configuration
  -- can be read and the search for types returns. Either the server has no types yet, or the types
  -- found and those of the server are the same, with the same binaries: then the reload goes on with
  -- the applications of the configuration. Or they are not: then it throws an error_runtime, and the
  -- server is as before.
  pub reload-changed :
      (s : Server) (root : env.Node) (nodes : List env.Node) (apps : List (String × String))
      → read_config env s.config_path ≡ ok (root, nodes)
      → fill_apps_to_path env s.config_path root [] ≡ (ok tt, apps)
      → IsMap s.app_to_path
      → (((s.app_to_path ≡ []) ⊎ (IsSame apps s.app_to_path))
          × (reload env s ≡ (reload_all env nodes apps [] >>= finish_reload env root apps) s))
        ⊎ ((s.app_to_path ≢ [])
            × (¬ (IsSame apps s.app_to_path))
            × (reload env s ≡ (throws error_runtime, s)))
  unfolding reload
  reload-changed s root nodes apps read found hs =
      let ha : IsMap apps =
        subst (λ r. IsMap r.1) found (fill_apps_to_path-Keeps env s.config_path root [] tt) in
      elim (Bool-cases (length s.app_to_path == 0)) [
        | inl empty ↦
            inl
              (inl (length-nil s.app_to_path (ground (arith, empty))), rw (read, found, empty) refl)
        | inr held ↦ elim (same_map-IsSame apps s.app_to_path ha hs) [
          | inl (test, same) ↦ inl (inr same, rw (read, found, held, test) refl)
          | inr (test, differ) ↦ inr (
            λ e. absurd (ground (arith, held, ap length e)),
            differ,
            rw (read, found, held, test) refl,
          )
        ]
      ]
