-- ===== src/Mods/Exact.antt =====
-- The set of mods that are enabled for others is what the enabled mods need.
use n64modern_runtime.Base.{
  ℕ, ◌≡◌, refl, ◌↔◌, ◌⊎◌, inl, inr, true, Option, some, List, [], ◌∷◌, arith,
}
use n64modern_runtime.Mods.Sound.{walk-Sound}
use n64modern_runtime.Mods.Ends.{walk-walk_fuel}
use n64modern_runtime.Mods.Found.{
  is_required, member_first, member_later, member_cases, Closed, Frontier, walk-Closed,
}
use n64modern_runtime.Mods.{ModHandle, member, find_mod, walk, walk_fuel, rebuild}

-- What the enabled mods need: a mod that one of them requires, or that a needed mod requires.
pub data Needed (opened : List (ℕ × ModHandle)) (enabled : List ℕ) : ℕ → Type 0 where
  directly :
      (c : ℕ) {d : ℕ} (m : ModHandle)
      → member c enabled ≡ true
      → find_mod opened c ≡ some m
      → is_required d m.dependencies ≡ true
      → Needed opened enabled d
  through :
      (c : ℕ) {d : ℕ} (m : ModHandle)
      → Needed opened enabled c
      → find_mod opened c ≡ some m
      → is_required d m.dependencies ≡ true
      → Needed opened enabled d

abbrev pub IsExact : (opened : List (ℕ × ModHandle)) (enabled auto : List ℕ) → Type 0
IsExact opened enabled auto = (d : ℕ) → (member d auto ≡ true) ↔ Needed opened enabled d

module _ (opened : List (ℕ × ModHandle)) (enabled : List ℕ) where
  abbrev Root : ℕ → Type 0
  Root x = member x enabled ≡ true

  next :
      (c d : ℕ) (m : ModHandle)
      → Root c ⊎ Needed opened enabled c
      → find_mod opened c ≡ some m
      → is_required d m.dependencies ≡ true
      → Needed opened enabled d
  next c d m (inl r) e q = directly c m r e q
  next c d m (inr n) e q = through c m n e q

  -- A set in which all is closed holds what is needed.
  reached :
      (a : List ℕ)
      → ((x : ℕ) → Root x ⊎ (member x a ≡ true) → Closed opened a x)
      → {d : ℕ} → Needed opened enabled d
      → member d a ≡ true
  reached a cl (directly c {d = d} m r e q) = cl c (inl r) m d e q
  reached a cl (through c {d = d} m n e q) = cl c (inr (reached a cl n)) m d e q

  exact :
      (a : List ℕ)
      → ((x : ℕ) → Root x ⊎ (member x a ≡ true) → Closed opened a x)
      → ((x : ℕ) → member x a ≡ true → Needed opened enabled x)
      → IsExact opened enabled a
  exact a cl so d = (so d, reached a cl)

no_member : (x : ℕ) → member x [] ≡ true → ⊥
unfolding member
no_member x h = ground arith

-- More enabled mods need more.
more_needed :
    (opened : List (ℕ × ModHandle)) (enabled : List ℕ) (id : ℕ) {d : ℕ}
    → Needed opened enabled d
    → Needed opened (id ∷ enabled) d
more_needed opened enabled id (directly c m r e q) = directly c m (member_later c id enabled r) e q
more_needed opened enabled id (through c m n e q) =
    through c m (more_needed opened enabled id n) e q

-- One more root, from a set that is exact already.
module _ {H : Type 0} (notify : ModHandle → ℕ → H → H) (opened : List (ℕ × ModHandle))
    (enabled : List ℕ) (id : ℕ) (a : List ℕ) (ex : IsExact opened enabled a) where
  start : Frontier opened (Root opened (id ∷ enabled)) (id ∷ []) a
  start x (inl r) = elim (member_cases x id enabled r) [
    | inl e ↦ inl (rw e (member_first id []))
    | inr k ↦ inr (λ m d f q. (ex d).1 (directly x m k f q))
  ]
  start x (inr k) = inr (λ m d f q. (ex d).1 (through x m ((ex x).0 k) f q))

  pub walk-IsExact :
      (h : H) (a' : List ℕ) (h' : H)
      → walk notify opened (walk_fuel opened) (id ∷ []) a h ≡ some (a', h')
      → IsExact opened (id ∷ enabled) a'
  walk-IsExact h a' h' e =
      exact opened (id ∷ enabled) a'
        (walk-Closed notify opened (Root opened (id ∷ enabled)) _ (id ∷ []) a h a' h' start e)
        (walk-Sound notify opened (Root opened (id ∷ enabled)) (Needed opened (id ∷ enabled))
          (next opened (id ∷ enabled)) _ (id ∷ []) a h a' h'
          ((λ x k. more_needed opened enabled id ((ex x).0 k)), root_only) e)
    where
      root_only :
          (x : ℕ)
          → member x (id ∷ []) ≡ true
          → Root opened (id ∷ enabled) x ⊎ Needed opened (id ∷ enabled) x
      root_only x k = elim (member_cases x id [] k) [
        | inl e ↦ inl (rw e (member_first id enabled))
        | inr none_left ↦ absurd (no_member x none_left)
      ]

-- The traversals from several roots, one after the other.
module _ (opened : List (ℕ × ModHandle)) (enabled : List ℕ) where
  abbrev AllClosed : (D : ℕ → Type 0) (a : List ℕ) → Type 0
  AllClosed D a = (x : ℕ) → D x ⊎ (member x a ≡ true) → Closed opened a x

  abbrev AllNeeded : List ℕ → Type 0
  AllNeeded a = (x : ℕ) → member x a ≡ true → Needed opened enabled x

  abbrev WithRoot : (ℕ → Type 0) → ℕ → ℕ → Type 0
  WithRoot D r x = (x ≡ r) ⊎ D x

  rebuild_step :
      (r : ℕ) (D : ℕ → Type 0) (a a' : List ℕ)
      → member r enabled ≡ true
      → AllClosed D a
      → AllNeeded a
      → walk {H = Unit} (λ m c h. h) opened (walk_fuel opened) (r ∷ []) a tt ≡ some (a', tt)
      → AllClosed (WithRoot D r) a' × AllNeeded a'
  rebuild_step r D a a' root cl need e = (
    walk-Closed (λ m c h. h) opened (WithRoot D r) _ (r ∷ []) a tt a' tt start_here e,
    walk-Sound (λ m c h. h) opened (Root opened enabled) (Needed opened enabled)
        (next opened enabled) _ (r ∷ []) a tt a' tt (need, only_root) e,
  )
    where
      start_here : Frontier opened (WithRoot D r) (r ∷ []) a
      start_here x (inl (inl q)) = inl (rw q (member_first r []))
      start_here x (inl (inr d)) = inr (cl x (inl d))
      start_here x (inr k) = inr (cl x (inr k))

      only_root :
          (x : ℕ) → member x (r ∷ []) ≡ true → Root opened enabled x ⊎ Needed opened enabled x
      only_root x k = elim (member_cases x r [] k) [
        | inl q ↦ inl (rw q root)
        | inr none_left ↦ absurd (no_member x none_left)
      ]

  rebuild_next :
      (r : ℕ) (roots a a₁ : List ℕ) {o : Option (List ℕ)}
      → walk {H = Unit} (λ m c h. h) opened (walk_fuel opened) (r ∷ []) a tt ≡ some (a₁, tt)
      → rebuild opened roots a₁ ≡ o
      → rebuild opened (r ∷ roots) a ≡ o
  unfolding rebuild
  rebuild_next r roots a a₁ h e = rw (h, rebuild) e

  regroup :
      (D : ℕ → Type 0) (r : ℕ) (roots a : List ℕ)
      → AllClosed (λ x. WithRoot D r x ⊎ (member x roots ≡ true)) a
      → AllClosed (λ x. D x ⊎ (member x (r ∷ roots) ≡ true)) a
  regroup D r roots a cl x (inl (inl d)) = cl x (inl (inl (inr d)))
  regroup D r roots a cl x (inr k) = cl x (inr k)
  regroup D r roots a cl x (inl (inr k)) = elim (member_cases x r roots k) [
    | inl e ↦ cl x (inl (inl (inl e)))
    | inr later ↦ cl x (inl (inr later))
  ]

  rebuild_finds :
      (roots : List ℕ) (D : ℕ → Type 0) (a : List ℕ)
      → ((x : ℕ) → member x roots ≡ true → member x enabled ≡ true)
      → AllClosed D a
      → AllNeeded a
      → (a' : List ℕ) × (rebuild opened roots a ≡ some a')
        × AllClosed (λ x. D x ⊎ (member x roots ≡ true)) a'
        × AllNeeded a'
  unfolding rebuild
  rebuild_finds [] D a sub cl need = (a, refl, still, need)
    where
      still : AllClosed (λ x. D x ⊎ (member x [] ≡ true)) a
      still x (inl (inl d)) = cl x (inl d)
      still x (inl (inr k)) = absurd (no_member x k)
      still x (inr k) = cl x (inr k)
  rebuild_finds (r ∷ roots) D a sub cl need =
      let ((a₁, u), e) = walk-walk_fuel {H = Unit} (λ m c h. h) opened r a tt in
      let (cl₁, need₁) = rebuild_step r D a a₁ (sub r (member_first r roots)) cl need e in
      let (a', e', cl', need') =
        rebuild_finds roots (WithRoot D r) a₁ (λ x k. sub x (member_later x r roots k)) cl₁ need₁ in
      (a', rebuild_next r roots a a₁ e e', regroup D r roots a' cl', need')

  pub rebuild-IsExact :
      (a : List ℕ) × (rebuild opened enabled [] ≡ some a) × IsExact opened enabled a
  rebuild-IsExact =
      let (a, e, cl, need) =
        rebuild_finds enabled (λ x. ⊥) [] (λ x k. k) nothing_yet (λ x k. absurd (no_member x k)) in
      (
        a,
        e,
        exact opened enabled a (λ x k. cl x (elim k [ inl r ↦ inl (inr r) | inr q ↦ inr q ])) need,
      )
    where
      nothing_yet : AllClosed (λ x. ⊥) []
      nothing_yet x (inl d) = absurd d
      nothing_yet x (inr k) = absurd (no_member x k)
