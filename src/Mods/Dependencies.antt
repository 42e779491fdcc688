-- ===== src/Mods/Dependencies.antt =====
-- librecomp/src/mods.cpp and include/librecomp/game.hpp: versions, and the two places that compare a
-- mod's dependencies with the mods that are loaded, is_dependency_met and check_dependencies.
pub mod Agree
use n64modern_runtime.Base.{
  ℕ, Bool, true, false, Option, none, some, List, [], ◌∷◌, ◌++◌, ◌==◌, if◌then◌else◌,
}
use n64modern_runtime.Base.Int.{ℤ, ltb_ℤ}

pub record Version : Type 0 where
  pub major : ℤ
  pub minor : ℤ
  pub patch : ℤ
  pub suffix : List ℕ

-- `<` by the comparison of game.hpp, which leaves the suffix out.
unfoldable pub version_less : Version → Version → Bool
version_less a b =
    if ltb_ℤ a.major b.major
    then true
    else if ltb_ℤ b.major a.major
    then false
    else if ltb_ℤ a.minor b.minor
    then true
    else if ltb_ℤ b.minor a.minor
    then false
    else ltb_ℤ a.patch b.patch

pub record Requirement : Type 0 where
  pub mod_id : ℕ
  pub version : Version
  pub optional : Bool

pub data DependencyStatus : Type 0 where
  invalid_dependency not_found wrong_version found : DependencyStatus

pub data DependencyError : Type 0 where
  missing_dependency : (mod_id : ℕ) → DependencyError
  wrong_dependency_version : (mod_id : ℕ) → (required got : Version) → DependencyError

-- `dependencies_by_id`: of two dependencies on one mod the first counts.
unfoldable pub dependency_by_id : ℕ → List Requirement → Option Requirement
dependency_by_id id [] = none
dependency_by_id id (d ∷ ds) =
    let rest = dependency_by_id id ds in if id == d.mod_id then some d else rest

-- The mods that are loaded, by id, are given by their versions.
module _ (loaded : ℕ → Option Version) where
  abbrev pub status_of : Requirement → Option Version → DependencyStatus
  status_of d none = not_found
  status_of d (some v) = if version_less v d.version then wrong_version else found

  abbrev pub declared_status : Option Requirement → DependencyStatus
  declared_status none = invalid_dependency
  declared_status (some d) = status_of d (loaded d.mod_id)

  unfoldable pub is_dependency_met : List Requirement → (id : ℕ) → DependencyStatus
  is_dependency_met ds id = declared_status (dependency_by_id id ds)

  abbrev pub errors_of : Requirement → Option Version → List DependencyError
  errors_of d none = missing_dependency d.mod_id ∷ []
  errors_of d (some v) =
      if version_less v d.version then wrong_dependency_version d.mod_id d.version v ∷ [] else []

  -- The errors that `check_dependencies` reports.
  unfoldable pub check_dependencies : List Requirement → List DependencyError
  check_dependencies [] = []
  check_dependencies (d ∷ ds) =
      let rest = check_dependencies ds in
      if d.optional then rest else errors_of d (loaded d.mod_id) ++ rest
