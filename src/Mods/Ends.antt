-- ===== src/Mods/Ends.antt =====
-- The traversal of the dependency graph ends: each id is put on its stack at most once.
use n64modern_runtime.Base.{
  ℕ, zero, suc, ◌+◌, ◌≤◌, ◌<◌, ◌≡◌, refl, sym, inl, inr, true, false, ◌||◌, Option, none, some,
  List, [], ◌∷◌, ◌++◌, arith, ◌==◌, if◌then◌else◌, ==_iff, Bool-cases, if_cases, length, All,
  All-map,
}
use mathlib.Core.Option.{some-injective}
use mathlib.Core.Path.{subst}
use native.Mathlib.Nat.{le_refl, le_trans}
use n64modern_runtime.Mods.Found.{or_cases, or_false_right, or_right, member_first, member_later}
use n64modern_runtime.Mods.{
  Dependency, ModHandle, member, find_mod, Walk, discover, add_dependencies, visit, walk,
  dependency_ids, all_ids, walk_fuel,
}

-- How many of the ids are not in the set yet.
missing : (ids a : List ℕ) → ℕ
missing [] a = 0
missing (u ∷ us) a = (if member u a then 0 else 1) + missing us a

missing_bound : (ids a : List ℕ) → missing ids a ≤ length ids
unfolding missing
missing_bound [] a = omega arith
missing_bound (u ∷ us) a = ground (arith, missing_bound us a)

missing_later : (ids a : List ℕ) (d : ℕ) → missing ids (d ∷ a) ≤ missing ids a
unfolding missing member
missing_later [] a d = omega arith
missing_later (u ∷ us) a d = ground (arith, missing_later us a d)

missing_less :
    (ids a : List ℕ) (d : ℕ)
    → member d ids ≡ true
    → member d a ≡ false
    → missing ids (d ∷ a) < missing ids a
unfolding missing member
missing_less [] a d k n = absurd (ground arith)
missing_less (u ∷ us) a d k n = elim (or_cases (d == u) (member d us) k) [
  | inl e ↦
      rw (sym ((==_iff d u).0 e), n, (==_iff d d).1 refl) (omega (arith, missing_later us a d))
  | inr m ↦ ground (arith, missing_less us a d m n)
]

module _ {H : Type 0} (notify : ModHandle → ℕ → H → H) (ids : List ℕ) where
  weight : Walk H → ℕ
  weight w = length w.pending + missing ids w.auto

  weight-discover :
      (m : ModHandle) (c d : ℕ) (w : Walk H)
      → member d ids ≡ true
      → member d w.auto ≡ false
      → weight (discover notify m c d w) ≤ weight w
  unfolding weight
  weight-discover m c d w k n = omega (arith, missing_less ids w.auto d k n)

  weight-add_dependencies :
      (m : ModHandle) (c : ℕ) (xs : List Dependency) (w : Walk H)
      → All (λ x. member x.mod_id ids ≡ true) xs
      → weight (add_dependencies notify m c xs w) ≤ weight w
  unfolding add_dependencies
  weight-add_dependencies m c [] w k = le_refl _
  weight-add_dependencies m c (x ∷ xs) w (k, ks) = le_trans (weight-add_dependencies m c xs _ ks) (
      if_cases (λ v. weight v ≤ weight w) (x.optional || member x.mod_id w.auto) (λ _. le_refl _)
        (λ n. weight-discover m c x.mod_id w k (or_false_right x.optional _ n)))

  weight-visit :
      (o : Option ModHandle) (c : ℕ) (w : Walk H)
      → ((m : ModHandle) → o ≡ some m → All (λ x. member x.mod_id ids ≡ true) m.dependencies)
      → weight (visit notify o c w) ≤ weight w
  unfolding visit
  weight-visit none c w k = le_refl _
  weight-visit (some m) c w k = weight-add_dependencies m c m.dependencies w (k m refl)

  walk_ends :
      (opened : List (ℕ × ModHandle)) (f : ℕ) (p a : List ℕ) (h : H)
      → ((c : ℕ) (m : ModHandle)
          → find_mod opened c ≡ some m
          → All (λ x. member x.mod_id ids ≡ true) m.dependencies)
      → length p + missing ids a < f
      → (r : List ℕ × H) × (walk notify opened f p a h ≡ some r)
  unfolding walk weight
  walk_ends opened zero p a h k l = absurd (omega arith)
  walk_ends opened (suc f) [] a h k l = ((a, h), refl)
  walk_ends opened (suc f) (c ∷ p) a h k l =
      let lighter =
        weight-visit (find_mod opened c) c (record { pending = p; auto = a; host = h }) (k c) in
      walk_ends opened f _ _ _ k (omega (arith, lighter))

-- The ids that the dependencies of opened mods name.
member_append_left : (x : ℕ) (l k : List ℕ) → member x l ≡ true → member x (l ++ k) ≡ true
unfolding member
member_append_left x [] k h = absurd (ground arith)
member_append_left x (y ∷ l) k h = elim (or_cases (x == y) (member x l) h) [
  | inl e ↦ rw e refl
  | inr m ↦ or_right (x == y) _ (member_append_left x l k m)
]

member_append_right : (x : ℕ) (l k : List ℕ) → member x k ≡ true → member x (l ++ k) ≡ true
unfolding member
member_append_right x [] k h = h
member_append_right x (y ∷ l) k h = or_right (x == y) _ (member_append_right x l k h)

dependency_ids-All :
    (xs : List Dependency) → All (λ x. member x.mod_id (dependency_ids xs) ≡ true) xs
unfolding dependency_ids
dependency_ids-All [] = tt
dependency_ids-All (x ∷ xs) = (
  member_first x.mod_id _,
  All-map xs (λ y h. member_later y.mod_id x.mod_id _ h) (dependency_ids-All xs),
)

all_ids-All :
    (opened : List (ℕ × ModHandle)) (c : ℕ) (m : ModHandle)
    → find_mod opened c ≡ some m
    → All (λ x. member x.mod_id (all_ids opened) ≡ true) m.dependencies
unfolding find_mod all_ids
all_ids-All [] c m e = absurd (ground arith)
all_ids-All ((k, m') ∷ l) c m e = elim (Bool-cases (c == k)) [
  | inl q ↦
      let same = some-injective m' m (rw q at e) in
      subst
        (λ n.
          All (λ x. member x.mod_id (dependency_ids m'.dependencies ++ all_ids l) ≡ true)
            n.dependencies)
        same
        (All-map m'.dependencies (λ x h. member_append_left x.mod_id _ (all_ids l) h)
          (dependency_ids-All m'.dependencies))
  | inr q ↦
      All-map m.dependencies
        (λ x h. member_append_right x.mod_id (dependency_ids m'.dependencies) _ h)
        (all_ids-All l c m (rw q at e))
]

-- The traversal that enabling a mod starts ends with the fuel of `walk_fuel`.
pub walk-walk_fuel :
    {H : Type 0} (notify : ModHandle → ℕ → H → H) (opened : List (ℕ × ModHandle)) (r : ℕ)
    (a : List ℕ) (h : H)
    → (z : List ℕ × H) × (walk notify opened (walk_fuel opened) (r ∷ []) a h ≡ some z)
walk-walk_fuel notify opened r a h =
    walk_ends notify (all_ids opened) opened (walk_fuel opened) (r ∷ []) a h (all_ids-All opened)
      (omega (arith, missing_bound (all_ids opened) a))
