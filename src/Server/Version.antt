-- ===== src/Server/Version.antt =====
-- include/cppalls/api/application.hpp: the version of an application.
use cpp_alls.Prelude.{ℕ, ◌≡◌, Bool, true, ◌&&◌, ◌==◌, arith}

pub record Version : Type 0 where
  pub major : ℕ
  pub minor : ℕ
  pub patch : ℕ

-- `application::version`
abbrev pub version : Version
version = record { major = 0; minor = 1; patch = 0 }

-- `operator ==`
abbrev pub same_version : Version → Version → Bool
same_version lhs rhs =
    (lhs.major == rhs.major) && ((lhs.minor == rhs.minor) && (lhs.patch == rhs.patch))

pub same_version-eq : (lhs rhs : Version) → same_version lhs rhs ≡ true → lhs ≡ rhs
same_version-eq lhs rhs h =
    let major : lhs.major ≡ rhs.major = ground (arith, h) in
    let minor : lhs.minor ≡ rhs.minor = ground (arith, h) in
    let patch : lhs.patch ≡ rhs.patch = ground (arith, h) in
    λ i. record { major = major i; minor = minor i; patch = patch i }

pub same_version_refl : (v : Version) → same_version v v ≡ true
same_version_refl v = ground arith
