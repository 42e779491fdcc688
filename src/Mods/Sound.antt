-- ===== src/Mods/Sound.antt =====
-- The traversal of the dependency graph finds nothing that is not needed.
use n64modern_runtime.Base.{
  ℕ, zero, suc, ◌≡◌, refl, ap, ◌⊎◌, inl, inr, true, not, ◌&&◌, ◌||◌, Option, none, some, List, [],
  ◌∷◌, arith, ◌==◌, ==_iff, if_cases,
}
use mathlib.Core.Option.{some-injective}
use n64modern_runtime.Mods.Found.{
  is_required, or_false, or_right, member_first, member_later, member_cases, before, visited,
}
use n64modern_runtime.Mods.{
  Dependency, ModHandle, member, find_mod, Walk, discover, add_dependencies, visit, walk,
}

module _ {H : Type 0} (notify : ModHandle → ℕ → H → H) (opened : List (ℕ × ModHandle))
    (R : ℕ → Type 0) where
  -- The traversal finds only what satisfies `N`, where `N` holds of what a root or a mod with `N`
  -- requires.
  module _ (N : ℕ → Type 0)
      (next : (c d : ℕ) (m : ModHandle)
        → R c ⊎ N c
        → find_mod opened c ≡ some m
        → is_required d m.dependencies ≡ true
        → N d) where
    abbrev Sound : (p a : List ℕ) → Type 0
    Sound p a = ((x : ℕ) → member x a ≡ true → N x) × ((x : ℕ) → member x p ≡ true → R x ⊎ N x)

    abbrev SoundWalk : Walk H → Type 0
    SoundWalk w = Sound w.pending w.auto

    discover-Sound :
        (m : ModHandle) (c d : ℕ) (w : Walk H)
        → N d
        → SoundWalk w
        → SoundWalk (discover notify m c d w)
    discover-Sound m c d w n s = (
      (λ x h. elim (member_cases x d w.auto h) [ inl e ↦ rw e n | inr k ↦ s.0 x k ]),
      (λ x h. elim (member_cases x d w.pending h) [ inl e ↦ inr (rw e n) | inr k ↦ s.1 x k ]),
    )

    add_dependencies-Sound :
        (m : ModHandle) (c : ℕ) (xs : List Dependency) (w : Walk H)
        → ((d : ℕ) → is_required d xs ≡ true → N d)
        → SoundWalk w
        → SoundWalk (add_dependencies notify m c xs w)
    unfolding add_dependencies is_required
    add_dependencies-Sound m c [] w need s = s
    add_dependencies-Sound m c (x ∷ xs) w need s =
        add_dependencies-Sound m c xs _
          (λ d r. need d (or_right (not x.optional && (d == x.mod_id)) _ r))
          (if_cases SoundWalk (x.optional || member x.mod_id w.auto) (λ _. s)
            (λ e.
              discover-Sound m c x.mod_id w
                (need x.mod_id
                  (rw (or_false x.optional _ e, (==_iff x.mod_id x.mod_id).1 refl) refl))
                s))

    visit-Sound :
        (o : Option ModHandle) (c : ℕ) (w : Walk H)
        → find_mod opened c ≡ o
        → R c ⊎ N c
        → SoundWalk w
        → SoundWalk (visit notify o c w)
    unfolding visit
    visit-Sound none c w e k s = s
    visit-Sound (some m) c w e k s =
        add_dependencies-Sound m c m.dependencies w (λ d r. next c d m k e r) s

    pub walk-Sound :
        (f : ℕ) (p a : List ℕ) (h : H) (a' : List ℕ) (h' : H)
        → Sound p a
        → walk notify opened f p a h ≡ some (a', h')
        → (x : ℕ) → member x a' ≡ true
        → N x
    unfolding walk
    walk-Sound zero p a h a' h' s e x k = absurd (ground arith)
    walk-Sound (suc f) [] a h a' h' s e x k =
        let same : a ≡ a' = ap (λ z. z.0) (some-injective _ _ e) in s.0 x (rw same k)
    walk-Sound (suc f) (c ∷ p) a h a' h' s e x k =
        let w = visited notify opened R c p a h in
        walk-Sound f w.pending w.auto w.host a' h'
          (visit-Sound (find_mod opened c) c (before notify opened R c p a h) refl
            (s.1 c (member_first c p)) (s.0, λ y q. s.1 y (member_later y c p q)))
          e x k
