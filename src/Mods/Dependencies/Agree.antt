-- ===== src/Mods/Dependencies/Agree.antt =====
-- The check of a mod's dependencies and the query for one of them agree.
use n64modern_runtime.Base.{
  ℕ, ◌≡◌, refl, sym, ◌≢◌, ◌↔◌, ◌⊎◌, inl, inr, Bool, true, false, Option, none, some, List, [], ◌∷◌,
  ◌++◌, arith, if◌then◌else◌, ==_iff, ==_apart, All,
}
use n64modern_runtime.Mods.Dependencies.{
  Version, version_less, Requirement, DependencyError, dependency_by_id, status_of,
  is_dependency_met, errors_of, check_dependencies, found, wrong_version, wrong_dependency_version,
}

-- No two dependencies are on the same mod.
abbrev pub IsDistinct : List Requirement → Type 0
IsDistinct [] = Unit
IsDistinct (d ∷ ds) = All (λ e. e.mod_id ≢ d.mod_id) ds × IsDistinct ds

module _ (loaded : ℕ → Option Version) where
  -- A dependency that is not optional is met.
  abbrev pub IsMet : List Requirement → Requirement → Type 0
  IsMet all d = (d.optional ≡ true) ⊎ (is_dependency_met loaded all d.mod_id ≡ found)

  errors_of-found :
      (d : Requirement) (o : Option Version)
      → (errors_of loaded d o ≡ []) ↔ (status_of loaded d o ≡ found)
  errors_of-found d none = ((λ e. ground arith), (λ e. ground arith))
  errors_of-found d (some v) = either (version_less v d.version)
    where
      either :
          (b : Bool)
          → ((if b then wrong_dependency_version d.mod_id d.version v ∷ [] else []) ≡ [])
            ↔ ((if b then wrong_version else found) ≡ found)
      either true = ((λ e. ground arith), (λ e. ground arith))
      either false = ((λ e. refl), (λ e. refl))

  -- The state of a dependency, without the lookup by its id.
  abbrev Direct : Requirement → Type 0
  Direct d = (d.optional ≡ true) ⊎ (status_of loaded d (loaded d.mod_id) ≡ found)

  no_errors : (xs ys : List DependencyError) → xs ++ ys ≡ [] → (xs ≡ []) × (ys ≡ [])
  no_errors [] ys e = (refl, e)
  no_errors (x ∷ xs) ys e = absurd (ground arith)

  check_one :
      (b : Bool) (xs rest : List DependencyError)
      → ((if b then rest else xs ++ rest) ≡ [])
      → ((b ≡ true) ⊎ (xs ≡ [])) × (rest ≡ [])
  check_one true xs rest e = (inl refl, e)
  check_one false xs rest e = let (p, q) = no_errors xs rest e in (inr p, q)

  check_none :
      (b : Bool) (xs rest : List DependencyError)
      → (b ≡ true) ⊎ (xs ≡ [])
      → rest ≡ []
      → (if b then rest else xs ++ rest) ≡ []
  check_none true xs rest p q = q
  check_none false xs rest (inl p) q = absurd (let r = sym p in cc)
  check_none false xs rest (inr p) q = rw (p, q) refl

  without_errors : (ds : List Requirement) → check_dependencies loaded ds ≡ [] → All Direct ds
  unfolding check_dependencies
  without_errors [] e = tt
  without_errors (d ∷ ds) e =
      let (here, later) = check_one d.optional (errors_of loaded d (loaded d.mod_id)) _ e in
      (
        elim here [ inl o ↦ inl o | inr p ↦ inr ((errors_of-found d (loaded d.mod_id)).0 p) ],
        without_errors ds later,
      )

  no_error_needed : (ds : List Requirement) → All Direct ds → check_dependencies loaded ds ≡ []
  unfolding check_dependencies
  no_error_needed [] h = refl
  no_error_needed (d ∷ ds) (h, hs) =
      check_none d.optional (errors_of loaded d (loaded d.mod_id)) _
        (elim h [ inl o ↦ inl o | inr p ↦ inr ((errors_of-found d (loaded d.mod_id)).1 p) ])
        (no_error_needed ds hs)

  -- Each dependency is the one that its id leads to.
  abbrev Leads : List Requirement → Requirement → Type 0
  Leads all d = dependency_by_id d.mod_id all ≡ some d

  id_finds_later :
      (d : Requirement) (all xs : List Requirement)
      → All (λ e. e.mod_id ≢ d.mod_id) xs
      → All (Leads all) xs
      → All (Leads (d ∷ all)) xs
  unfolding dependency_by_id
  id_finds_later d all [] n h = tt
  id_finds_later d all (e ∷ xs) (n, ns) (h, hs) =
      (rw (==_apart e.mod_id d.mod_id n) h, id_finds_later d all xs ns hs)

  id_finds : (ds : List Requirement) → IsDistinct ds → All (Leads ds) ds
  unfolding dependency_by_id
  id_finds [] h = tt
  id_finds (d ∷ ds) (n, h) =
      (rw ((==_iff d.mod_id d.mod_id).1 refl) refl, id_finds_later d ds ds n (id_finds ds h))

  to_queries : (all xs : List Requirement) → All (Leads all) xs → All Direct xs → All (IsMet all) xs
  unfolding is_dependency_met
  to_queries all [] l h = tt
  to_queries all (d ∷ xs) (l, ls) (h, hs) =
      (elim h [ inl o ↦ inl o | inr p ↦ inr (rw l p) ], to_queries all xs ls hs)

  from_queries :
      (all xs : List Requirement) → All (Leads all) xs → All (IsMet all) xs → All Direct xs
  unfolding is_dependency_met
  from_queries all [] l h = tt
  from_queries all (d ∷ xs) (l, ls) (h, hs) =
      (elim h [ inl o ↦ inl o | inr p ↦ inr (rw l at p) ], from_queries all xs ls hs)

  -- When no two dependencies of a mod are on the same mod, the check before loading reports no error
  -- just when every dependency that is not optional is reported as found by the query for its id:
  -- the mod is loaded, in a version that is not less than the required one.
  pub check_dependencies-IsMet :
      (ds : List Requirement)
      → IsDistinct ds
      → (check_dependencies loaded ds ≡ []) ↔ All (IsMet ds) ds
  check_dependencies-IsMet ds h = (
    (λ e. to_queries ds ds (id_finds ds h) (without_errors ds e)),
    (λ met. no_error_needed ds (from_queries ds ds (id_finds ds h) met)),
  )
