-- ===== src/Mods.antt =====
-- librecomp/src/mods.cpp: which mods are enabled, and which are enabled because an enabled mod needs
-- them (ModContext::enable_mod). An id stands for the string of a mod; sets are lists.
pub mod Events
pub mod Found
pub mod Sound
pub mod Ends
pub mod Exact
pub mod Toggle
pub mod Dependencies
pub mod Order
use n64modern_runtime.Base.{
  ℕ, zero, suc, ◌+◌, Bool, false, not, ◌&&◌, ◌||◌, Option, none, some, List, [], ◌∷◌, ◌++◌, ◌==◌,
  if◌then◌else◌, length,
}
use mathlib.Core.Option

-- The version that a dependency asks for plays no part here; see Mods/Dependencies.
pub record Dependency : Type 0 where
  pub mod_id : ℕ
  pub optional : Bool

-- Of `ModHandle`: the manifest's dependencies, the content types, and whether the mod can be toggled
-- at runtime and is for the active game.
pub record ModHandle : Type 0 where
  pub dependencies : List Dependency
  pub content_types : List ℕ
  pub runtime_toggleable : Bool
  pub for_active_game : Bool

unfoldable pub member : ℕ → List ℕ → Bool
member a [] = false
member a (b ∷ l) = (a == b) || member a l

-- `emplace` and `erase` of a set.
abbrev pub emplace : ℕ → List ℕ → List ℕ
emplace a l = if member a l then l else a ∷ l

unfoldable pub erase : ℕ → List ℕ → List ℕ
erase a [] = []
erase a (b ∷ l) = let rest = erase a l in if a == b then rest else b ∷ rest

-- `opened_mods_by_id.find`, and the handle that it leads to.
unfoldable pub find_mod : List (ℕ × ModHandle) → ℕ → Option ModHandle
find_mod [] id = none
find_mod ((k, m) ∷ l) id = let rest = find_mod l id in if id == k then some m else rest

-- The traversal of the dependency graph: the stack, the set that it fills, and the state that the
-- callbacks of content types change.
pub record Walk (H : Type 0) : Type 0 where
  pub pending : List ℕ
  pub auto : List ℕ
  pub host : H

module _ {H : Type 0} (notify : ModHandle → ℕ → H → H) where
  -- A dependency of the mod `m`, whose id is `c`, that is not in the set yet.
  abbrev pub discover : ModHandle → (c d : ℕ) → Walk H → Walk H
  discover m c d w = record { pending = d ∷ w.pending; auto = d ∷ w.auto; host = notify m c w.host }

  -- The loop over the dependencies of `m`.
  unfoldable pub add_dependencies : ModHandle → ℕ → List Dependency → Walk H → Walk H
  add_dependencies m c [] w = w
  add_dependencies m c (x ∷ xs) w =
      add_dependencies m c xs
        (if x.optional || member x.mod_id w.auto then w else discover m c x.mod_id w)

  unfoldable pub visit : Option ModHandle → ℕ → Walk H → Walk H
  visit none c w = w
  visit (some m) c w = add_dependencies m c m.dependencies w

  -- The `while (!pending.empty())` loop; `none`: the fuel ran out.
  unfoldable pub walk :
      List (ℕ × ModHandle) → (fuel : ℕ) → (pending auto : List ℕ) → H → Option (List ℕ × H)
  walk opened zero p a h = none
  walk opened (suc f) [] a h = some (a, h)
  walk opened (suc f) (c ∷ p) a h =
      let w = visit (find_mod opened c) c (record { pending = p; auto = a; host = h }) in
      walk opened f w.pending w.auto w.host

-- All ids that a mod depends on: the walk finds no others.
unfoldable pub dependency_ids : List Dependency → List ℕ
dependency_ids [] = []
dependency_ids (x ∷ xs) = x.mod_id ∷ dependency_ids xs

unfoldable pub all_ids : List (ℕ × ModHandle) → List ℕ
all_ids [] = []
all_ids ((k, m) ∷ l) = dependency_ids m.dependencies ++ all_ids l

abbrev pub walk_fuel : List (ℕ × ModHandle) → ℕ
walk_fuel opened = length (all_ids opened) + 2

-- The traversal from each of the enabled mods in turn, without callbacks.
unfoldable pub rebuild : List (ℕ × ModHandle) → (roots auto : List ℕ) → Option (List ℕ)
rebuild opened [] a = some a
rebuild opened (r ∷ roots) a =
    elim (walk {H = Unit} (λ m c h. h) opened (walk_fuel opened) (r ∷ []) a tt) [
      | some (a', h) ↦ rebuild opened roots a'
      | none ↦ none
    ]

-- `mods_loaded`: there is an active game. `saves` counts the requests to save the configuration.
pub record ModContext (H : Type 0) : Type 0 where
  pub opened : List (ℕ × ModHandle)
  pub enabled : List ℕ
  pub auto_enabled : List ℕ
  pub mods_loaded : Bool
  pub host : H
  pub saves : ℕ

module _ {H : Type 0} where
  -- The callbacks of the content types of the mod `id`, where they are set.
  unfoldable pub call_all : (ℕ → Option (H → ℕ → H)) → List ℕ → ℕ → H → H
  call_all on [] id h = h
  call_all on (k ∷ kinds) id h = call_all on kinds id (elim (on k) [ some f ↦ f h id | none ↦ h ])

  abbrev pub notify_if : Bool → (ℕ → Option (H → ℕ → H)) → ModHandle → ℕ → H → H
  notify_if loaded on m id h = if loaded then call_all on m.content_types id h else h

  abbrev pub save_if : Bool → ModContext H → ModContext H
  save_if trigger_save s = if trigger_save then record s { saves = s.saves + 1 } else s

module _ {H : Type 0} (on_enabled on_disabled : ℕ → Option (H → ℕ → H)) where
  -- Mods that were enabled for others and are no longer.
  unfoldable pub disable_previous : ModContext H → (previous rebuilt : List ℕ) → H → H
  disable_previous s [] rebuilt h = h
  disable_previous s (p ∷ ps) rebuilt h = disable_previous s ps rebuilt (
      if member p rebuilt then h else elim (find_mod s.opened p) [
        | some m ↦ call_all on_disabled m.content_types p h
        | none ↦ h
      ])

  unfoldable pub turn_on : ModContext H → ℕ → ModHandle → Option (ModContext H)
  turn_on s id m =
      if member id s.enabled
      then some s
      else elim (walk (notify_if s.mods_loaded on_enabled) s.opened (walk_fuel s.opened) (id ∷ [])
          s.auto_enabled (notify_if s.mods_loaded on_enabled m id s.host)) [
            | some (a, h) ↦ some (record s { enabled = id ∷ s.enabled; auto_enabled = a; host = h })
            | none ↦ none
          ]

  unfoldable pub turn_off : ModContext H → ℕ → ModHandle → Option (ModContext H)
  turn_off s id m =
      if not (member id s.enabled)
      then some s
      else elim (rebuild s.opened (erase id s.enabled) []) [
        | some a ↦ some (record s {
          enabled = erase id s.enabled;
          auto_enabled = a;
          host =
              (let h = notify_if s.mods_loaded on_disabled m id s.host in
                if s.mods_loaded then disable_previous s s.auto_enabled a h else h);
        })
        | none ↦ none
      ]

  unfoldable pub toggle :
      Option ModHandle
      → ModContext H
      → (id : ℕ) → (enable trigger_save : Bool) → Option (ModContext H)
  toggle none s id enable trigger_save = some s
  toggle (some m) s id enable trigger_save =
      if s.mods_loaded && not m.runtime_toggleable
      then some s
      else if s.mods_loaded && not m.for_active_game
      then some s
      else Option.map (save_if trigger_save) (if enable then turn_on s id m else turn_off s id m)

  unfoldable pub enable_mod :
      ModContext H → (id : ℕ) → (enable trigger_save : Bool) → Option (ModContext H)
  enable_mod s id enable trigger_save = toggle (find_mod s.opened id) s id enable trigger_save
