-- ===== src/Mods/Found.antt =====
-- What the traversal of the dependency graph finds.
use n64modern_runtime.Base.{
  ℕ, zero, suc, ◌≡◌, refl, sym, ap, ◌∙◌, ◌⊎◌, inl, inr, Bool, true, false, not, ◌&&◌, ◌||◌, Option,
  none, some, List, [], ◌∷◌, arith, ◌==◌, if◌then◌else◌, ==_iff, if_cases,
}
use mathlib.Core.Option.{some-injective}
use mathlib.Core.Path.{subst}
use n64modern_runtime.Mods.{
  Dependency, ModHandle, member, find_mod, Walk, discover, add_dependencies, visit, walk,
}

-- A required dependency of a mod.
unfoldable pub is_required : ℕ → List Dependency → Bool
is_required d [] = false
is_required d (x ∷ xs) = (not x.optional && (d == x.mod_id)) || is_required d xs

pub or_cases : (a b : Bool) → (a || b) ≡ true → (a ≡ true) ⊎ (b ≡ true)
or_cases true b h = inl refl
or_cases false b h = inr h

pub and_true : (a b : Bool) → (a && b) ≡ true → (a ≡ true) × (b ≡ true)
and_true true b h = (refl, h)
and_true false b h = absurd (ground arith)

pub or_false_right : (a b : Bool) → (a || b) ≡ false → b ≡ false
or_false_right true b h = absurd (let q = sym h in cc)
or_false_right false b h = h

pub or_false : (a b : Bool) → (a || b) ≡ false → a ≡ false
or_false true b h = h
or_false false b h = refl

or_left : (a b : Bool) → a ≡ true → (a || b) ≡ true
or_left a b h = rw h refl

pub or_right : (a b : Bool) → b ≡ true → (a || b) ≡ true
or_right true b h = refl
or_right false b h = h

pub member_first : (a : ℕ) (l : List ℕ) → member a (a ∷ l) ≡ true
unfolding member
member_first a l = or_left (a == a) (member a l) ((==_iff a a).1 refl)

pub member_later : (a b : ℕ) (l : List ℕ) → member a l ≡ true → member a (b ∷ l) ≡ true
unfolding member
member_later a b l h = or_right (a == b) (member a l) h

pub member_cases : (a b : ℕ) (l : List ℕ) → member a (b ∷ l) ≡ true → (a ≡ b) ⊎ (member a l ≡ true)
unfolding member
member_cases a b l h = elim (or_cases (a == b) (member a l) h) [
  | inl e ↦ inl ((==_iff a b).0 e)
  | inr m ↦ inr m
]

-- From one state of the traversal to a later one: nothing is lost, and what is new in the set is
-- on the stack.
pub record Grown {H : Type 0} (w w' : Walk H) : Type 0 where
  pub more_auto : (x : ℕ) → member x w.auto ≡ true → member x w'.auto ≡ true
  pub more_pending : (x : ℕ) → member x w.pending ≡ true → member x w'.pending ≡ true
  pub new_pending :
      (x : ℕ) → member x w'.auto ≡ true → (member x w.auto ≡ true) ⊎ (member x w'.pending ≡ true)

module _ {H : Type 0} where
  Grown-refl : (w : Walk H) → Grown w w
  Grown-refl w = record {
    more_auto = λ x h. h;
    more_pending = λ x h. h;
    new_pending = λ x h. inl h;
  }

  Grown-trans : (u v w : Walk H) → Grown u v → Grown v w → Grown u w
  Grown-trans u v w p q = record {
    more_auto = λ x h. q.more_auto x (p.more_auto x h);
    more_pending = λ x h. q.more_pending x (p.more_pending x h);
    new_pending = λ x h. elim (q.new_pending x h) [
      | inr l ↦ inr l
      | inl a ↦ elim (p.new_pending x a) [ inl b ↦ inl b | inr l ↦ inr (q.more_pending x l) ]
    ];
  }

  module _ (notify : ModHandle → ℕ → H → H) (m : ModHandle) (c : ℕ) where
    discover-Grown : (d : ℕ) (w : Walk H) → Grown w (discover notify m c d w)
    discover-Grown d w = record {
      more_auto = λ x h. member_later x d w.auto h;
      more_pending = λ x h. member_later x d w.pending h;
      new_pending = λ x h. elim (member_cases x d w.auto h) [
        | inl e ↦ inr (rw e (member_first d w.pending))
        | inr a ↦ inl a
      ];
    }

    abbrev one : Dependency → Walk H → Walk H
    one x w = if x.optional || member x.mod_id w.auto then w else discover notify m c x.mod_id w

    one-Grown : (x : Dependency) (w : Walk H) → Grown w (one x w)
    one-Grown x w =
        if_cases (λ (v : Walk H). Grown w v) (x.optional || member x.mod_id w.auto)
          (λ _. Grown-refl w) (λ _. discover-Grown x.mod_id w)

    one_covers :
        (x : Dependency) (w : Walk H)
        → not x.optional ≡ true
        → member x.mod_id (one x w).auto ≡ true
    one_covers x w h =
        if_cases (λ (v : Walk H). member x.mod_id v.auto ≡ true)
          (x.optional || member x.mod_id w.auto)
          (λ e. elim (or_cases x.optional (member x.mod_id w.auto) e) [
            | inl o ↦ absurd (let q = sym (rw o at h) in cc)
            | inr k ↦ k
          ])
          (λ _. member_first x.mod_id w.auto)

    add_dependencies-Grown :
        (xs : List Dependency) (w : Walk H) → Grown w (add_dependencies notify m c xs w)
    unfolding add_dependencies
    add_dependencies-Grown [] w = Grown-refl w
    add_dependencies-Grown (x ∷ xs) w =
        Grown-trans w (one x w) _ (one-Grown x w) (add_dependencies-Grown xs (one x w))

    add_dependencies-covers :
        (xs : List Dependency) (w : Walk H) (d : ℕ)
        → is_required d xs ≡ true
        → member d (add_dependencies notify m c xs w).auto ≡ true
    unfolding add_dependencies is_required
    add_dependencies-covers [] w d h = absurd (ground arith)
    add_dependencies-covers (x ∷ xs) w d h =
        elim (or_cases (not x.optional && (d == x.mod_id)) (is_required d xs) h) [
          | inl e ↦
              let (needed, same) = and_true (not x.optional) (d == x.mod_id) e in
              (add_dependencies-Grown xs (one x w)).more_auto d
                (rw ((==_iff d x.mod_id).0 same) (one_covers x w needed))
          | inr e ↦ add_dependencies-covers xs (one x w) d e
        ]

-- Everything that the mod `c` requires is in the set.
abbrev pub Closed : List (ℕ × ModHandle) → List ℕ → ℕ → Type 0
Closed opened a c =
    (m : ModHandle) (d : ℕ)
    → find_mod opened c ≡ some m
    → is_required d m.dependencies ≡ true
    → member d a ≡ true

-- Of the roots and the members of the set, each is closed or still on the stack.
abbrev pub Frontier : List (ℕ × ModHandle) → (ℕ → Type 0) → (pending auto : List ℕ) → Type 0
Frontier opened R p a =
    (x : ℕ) → R x ⊎ (member x a ≡ true) → (member x p ≡ true) ⊎ Closed opened a x

module _ {H : Type 0} (notify : ModHandle → ℕ → H → H) (opened : List (ℕ × ModHandle))
    (R : ℕ → Type 0) where
  -- A visit grows the state and closes the mod that is visited.
  pub visit-Grown : (o : Option ModHandle) (c : ℕ) (w : Walk H) → Grown w (visit notify o c w)
  unfolding visit
  visit-Grown none c w = Grown-refl w
  visit-Grown (some m) c w = add_dependencies-Grown notify m c m.dependencies w

  visit-Closed :
      (o : Option ModHandle) (c : ℕ) (w : Walk H)
      → find_mod opened c ≡ o
      → Closed opened (visit notify o c w).auto c
  unfolding visit
  visit-Closed none c w e m d f r = absurd (let q = sym e ∙ f in cc)
  visit-Closed (some m') c w e m d f r =
      let same = some-injective m' m (sym e ∙ f) in
      add_dependencies-covers notify m' c m'.dependencies w d
        (subst (λ k. is_required d k.dependencies ≡ true) (sym same) r)

  module _ (c : ℕ) (p a : List ℕ) (h : H) where
    abbrev pub before : Walk H
    before = record { pending = p; auto = a; host = h }

    abbrev pub visited : Walk H
    visited = visit notify (find_mod opened c) c before

    grown : Grown before visited
    grown = visit-Grown (find_mod opened c) c before

    still :
        (x : ℕ)
        → (member x (c ∷ p) ≡ true) ⊎ Closed opened a x
        → (member x visited.pending ≡ true) ⊎ Closed opened visited.auto x
    still x (inr cl) = inr (λ m d f r. grown.more_auto d (cl m d f r))
    still x (inl q) = elim (member_cases x c p q) [
      | inl e ↦ inr (rw e (visit-Closed (find_mod opened c) c before refl))
      | inr mp ↦ inl (grown.more_pending x mp)
    ]

    visit-Frontier : Frontier opened R (c ∷ p) a → Frontier opened R visited.pending visited.auto
    visit-Frontier fr x (inl root) = still x (fr x (inl root))
    visit-Frontier fr x (inr k) = elim (grown.new_pending x k) [
      | inl old ↦ still x (fr x (inr old))
      | inr on_stack ↦ inl on_stack
    ]

  nothing_pending :
      (a a' : List ℕ)
      → a ≡ a'
      → Frontier opened R [] a
      → (x : ℕ) → R x ⊎ (member x a' ≡ true)
      → Closed opened a' x
  unfolding member
  nothing_pending a a' e fr x k = elim (fr x (rw e k)) [
    | inl impossible ↦ absurd (ground arith)
    | inr cl ↦ λ m d f r. rw (← e) (cl m d f r)
  ]

  -- The traversal ends with a set in which the roots and all members are closed.
  pub walk-Closed :
      (f : ℕ) (p a : List ℕ) (h : H) (a' : List ℕ) (h' : H)
      → Frontier opened R p a
      → walk notify opened f p a h ≡ some (a', h')
      → (x : ℕ) → R x ⊎ (member x a' ≡ true)
      → Closed opened a' x
  unfolding walk
  walk-Closed zero p a h a' h' fr e x k = absurd (ground arith)
  walk-Closed (suc f) [] a h a' h' fr e x k =
      nothing_pending a a' (ap (λ z. z.0) (some-injective _ _ e)) fr x k
  walk-Closed (suc f) (c ∷ p) a h a' h' fr e x k =
      let w = visited c p a h in
      walk-Closed f w.pending w.auto w.host a' h' (visit-Frontier c p a h fr) e x k
