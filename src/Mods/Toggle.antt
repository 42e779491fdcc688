-- ===== src/Mods/Toggle.antt =====
-- Enabling and disabling a mod keeps the set of mods that are enabled for others exact.
use n64modern_runtime.Base.{
  ℕ, ◌≡◌, refl, Bool, true, false, not, ◌&&◌, Option, none, some, List, if_cases,
}
use n64modern_runtime.Mods.Exact.{IsExact, walk-IsExact, rebuild-IsExact}
use n64modern_runtime.Mods.Ends.{walk-walk_fuel}
use n64modern_runtime.Mods.{
  ModHandle, member, erase, find_mod, ModContext, notify_if, save_if, turn_on, turn_off, toggle,
  enable_mod,
}
use mathlib.Core.Option

-- There is a new context, of the same mods, and its set is exact.
abbrev pub GivesExact : {H : Type 0} → List (ℕ × ModHandle) → Option (ModContext H) → Type 0
GivesExact opened none = ⊥
GivesExact opened (some s) = (s.opened ≡ opened) × IsExact s.opened s.enabled s.auto_enabled

module _ {H : Type 0} (on_enabled on_disabled : ℕ → Option (H → ℕ → H)) where
  abbrev ContextIsExact : ModContext H → Type 0
  ContextIsExact s = IsExact s.opened s.enabled s.auto_enabled

  turn_on-Exact :
      (s : ModContext H) (id : ℕ) (m : ModHandle)
      → ContextIsExact s
      → GivesExact s.opened (turn_on on_enabled on_disabled s id m)
  unfolding turn_on
  turn_on-Exact s id m ex =
      let notify = notify_if s.mods_loaded on_enabled in
      let ((a, h), e) = walk-walk_fuel notify s.opened id s.auto_enabled (notify m id s.host) in
      if_cases (GivesExact s.opened) (member id s.enabled) (λ _. (refl, ex))
        λ _. rw e (
          refl,
          walk-IsExact notify s.opened s.enabled id s.auto_enabled ex (notify m id s.host) a h e,
        )

  turn_off-Exact :
      (s : ModContext H) (id : ℕ) (m : ModHandle)
      → ContextIsExact s
      → GivesExact s.opened (turn_off on_enabled on_disabled s id m)
  unfolding turn_off
  turn_off-Exact s id m ex =
      let (a, e, ex') = rebuild-IsExact s.opened (erase id s.enabled) in
      if_cases (GivesExact s.opened) (not (member id s.enabled)) (λ _. (refl, ex))
        (λ _. rw e (refl, ex'))

  save_if-Exact :
      (b : Bool) (opened : List (ℕ × ModHandle)) (o : Option (ModContext H))
      → GivesExact opened o
      → GivesExact opened (Option.map (save_if b) o)
  save_if-Exact true opened (some s) h = h
  save_if-Exact false opened (some s) h = h
  save_if-Exact b opened none h = absurd h

  toggle-Exact :
      (o : Option ModHandle) (s : ModContext H) (id : ℕ) (enable trigger_save : Bool)
      → ContextIsExact s
      → GivesExact s.opened (toggle on_enabled on_disabled o s id enable trigger_save)
  unfolding toggle
  toggle-Exact none s id enable trigger_save ex = (refl, ex)
  toggle-Exact (some m) s id enable trigger_save ex =
      let Q = GivesExact s.opened in
      if_cases Q (s.mods_loaded && not m.runtime_toggleable) (λ _. (refl, ex))
        λ _.
          if_cases Q (s.mods_loaded && not m.for_active_game) (λ _. (refl, ex))
            λ _.
              save_if-Exact trigger_save s.opened _
                (if_cases Q enable (λ _. turn_on-Exact s id m ex) (λ _. turn_off-Exact s id m ex))

  -- If the auto-enabled mods are exactly those that the enabled mods need, directly or through other
  -- mods and by dependencies that are not optional, then enabling or disabling any mod ends within
  -- the fuel, keeps the opened mods, and leaves the auto-enabled mods exact for the new set of
  -- enabled mods.
  pub enable_mod-IsExact :
      (s : ModContext H) (id : ℕ) (enable trigger_save : Bool)
      → IsExact s.opened s.enabled s.auto_enabled
      → GivesExact s.opened (enable_mod on_enabled on_disabled s id enable trigger_save)
  unfolding enable_mod
  enable_mod-IsExact s id enable trigger_save ex =
      toggle-Exact (find_mod s.opened id) s id enable trigger_save ex
