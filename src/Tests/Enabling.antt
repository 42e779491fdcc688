-- ===== src/Tests/Enabling.antt =====
-- The theorems on mods at concrete inputs.
use n64modern_runtime.Base.{
  ℕ, ◌+◌, ◌-◌, ◌*◌, ◌≡◌, refl, ◌≢◌, ◌↔◌, true, false, not, Option, none, some, List, [], ◌∷◌, arith,
  ◌==◌, if◌then◌else◌, ==_false, All,
}
use n64modern_runtime.Base.Int.{pos}
use n64modern_runtime.Mods.Events.Fired.{
  IsSortOf, called_all, recomp_trigger_event-finish_event_setup,
}
use n64modern_runtime.Mods.Events.{
  EventListener, insert_listener, sort_listeners, finish_event_setup, run_listeners,
  recomp_trigger_event,
}
use n64modern_runtime.Mods.Dependencies.Agree.{IsMet, check_dependencies-IsMet}
use n64modern_runtime.Mods.Dependencies.{Version, version_less, Requirement, check_dependencies}
use n64modern_runtime.Mods.Order.Moved.{remove, insert_at, all_games, set_mod_index-moves}
use n64modern_runtime.Mods.Order.{scan_entry, scan, set_mod_index}
use n64modern_runtime.Mods.Toggle.{GivesExact, enable_mod-IsExact}
use n64modern_runtime.Mods.Exact.{Needed, IsExact, directly, through}
use n64modern_runtime.Mods.{
  Dependency, ModHandle, member, find_mod, add_dependencies, visit, walk, dependency_ids, all_ids,
  ModContext, call_all, turn_on, toggle, enable_mod,
}

abbrev needs : List Dependency → ModHandle
needs ds = record {
  dependencies = ds;
  content_types = 7 ∷ [];
  runtime_toggleable = true;
  for_active_game = true;
}

-- The mod 1 requires 2 and can use 3; the mod 2 requires 4.
abbrev three_mods : List (ℕ × ModHandle)
three_mods =
    (
      1,
      needs (record { mod_id = 2; optional = false } ∷ record { mod_id = 3; optional = true } ∷ []),
    )
    ∷ (2, needs (record { mod_id = 4; optional = false } ∷ []))
    ∷ (3, needs [])
    ∷ []

-- The state of the callbacks is the list of the mods that they were called with.
abbrev nothing_enabled : ModContext (List ℕ)
nothing_enabled = record {
  opened = three_mods;
  enabled = [];
  auto_enabled = [];
  mods_loaded = true;
  host = [];
  saves = 0;
}

abbrev noting : ℕ → Option (List ℕ → ℕ → List ℕ)
noting kind = some (λ h id. id ∷ h)

nothing_is_needed : (d : ℕ) → Needed three_mods [] d → ⊥
unfolding member
nothing_is_needed d (directly c m r e q) = ground arith
nothing_is_needed d (through c m n e q) = nothing_is_needed c n

at_first : IsExact three_mods [] []
unfolding member
at_first d = ((λ k. absurd (ground arith)), (λ n. absurd (nothing_is_needed d n)))

enable_mod-IsExact_example :
    GivesExact three_mods (enable_mod noting noting nothing_enabled 1 true true)
enable_mod-IsExact_example = enable_mod-IsExact noting noting nothing_enabled 1 true true at_first

-- What the mod 1 needs is enabled, and each callback is called with the mod that has the dependency.
enabling_notes :
    enable_mod noting noting nothing_enabled 1 true false
    ≡ some (record nothing_enabled {
      enabled = 1 ∷ [];
      auto_enabled = 4 ∷ 2 ∷ [];
      host = 2 ∷ 1 ∷ 1 ∷ [];
    })
unfolding enable_mod toggle turn_on walk visit add_dependencies member find_mod call_all
    dependency_ids all_ids
enabling_notes = refl

apart : (a b : ℕ) → (a == b) ≡ false → a ≢ b
apart a b h = ==_false a b h

once_there : All (λ e. 5 ≢ e) (remove 5 (3 ∷ 5 ∷ 8 ∷ 9 ∷ []))
unfolding remove
once_there = (apart 5 3 refl, (apart 5 8 refl, (apart 5 9 refl, tt)))

set_mod_index-moves_example :
    set_mod_index all_games 5 2 (3 ∷ 5 ∷ 8 ∷ 9 ∷ [])
    ≡ some (insert_at 2 5 (remove 5 (3 ∷ 5 ∷ 8 ∷ 9 ∷ [])))
set_mod_index-moves_example = set_mod_index-moves 5 2 (3 ∷ 5 ∷ 8 ∷ 9 ∷ []) once_there

-- In the view of a game, behind a mod of another game: the mod 1 is to become the second of the
-- visible mods 1, 2 and 3, and stays the first.
hidden_mod : set_mod_index (λ e. not (e == 9)) 1 1 (1 ∷ 9 ∷ 2 ∷ 3 ∷ []) ≡ some (9 ∷ 1 ∷ 2 ∷ 3 ∷ [])
unfolding set_mod_index scan scan_entry
hidden_mod = refl

abbrev version : ℕ → ℕ → ℕ → Version
version a b c = record { major = pos a; minor = pos b; patch = pos c; suffix = [] }

-- The mods 2, in version 1.2.0, and 3, in version 0.9.9, are loaded.
abbrev two_loaded : ℕ → Option Version
two_loaded id =
    if id == 2 then some (version 1 2 0) else if id == 3 then some (version 0 9 9) else none

abbrev wants : List Requirement
wants =
    record { mod_id = 2; version = version 1 1 7; optional = false }
    ∷ record { mod_id = 3; version = version 1 0 0; optional = true }
    ∷ []

check_dependencies-IsMet_example :
    (check_dependencies two_loaded wants ≡ []) ↔ All (IsMet two_loaded wants) wants
check_dependencies-IsMet_example =
    check_dependencies-IsMet two_loaded wants ((apart 3 2 refl, tt), (tt, tt))

no_errors_reported : check_dependencies two_loaded wants ≡ []
unfolding check_dependencies version_less
no_errors_reported = refl

-- Two listeners of one event: mod 2 is loaded before mod 1.
abbrev two_listeners : List EventListener
two_listeners = record { mod_index = 1; func = 5 } ∷ record { mod_index = 2; func = 6 } ∷ []

abbrev later_first : ℕ → ℕ
later_first m = 10 - m

abbrev add_func : ℕ → ℕ → ℕ → ℕ × ℕ
add_func f s ctx = (s * 10 + f, ctx + 1)

recomp_trigger_event-finish_event_setup_example :
    (e : List EventListener) × IsSortOf later_first two_listeners e
    × (recomp_trigger_event add_func 0 (finish_event_setup later_first (two_listeners ∷ [])) 0 7
        ≡ some (called_all add_func e 7 0, 7))
recomp_trigger_event-finish_event_setup_example =
    recomp_trigger_event-finish_event_setup add_func later_first 0 (two_listeners ∷ [])
      two_listeners 0 7 refl

mod_two_first :
    recomp_trigger_event add_func 0 (finish_event_setup later_first (two_listeners ∷ [])) 0 7
    ≡ some (65, 7)
unfolding recomp_trigger_event run_listeners finish_event_setup sort_listeners insert_listener
mod_two_first = refl
