-- ===== src/Mods/Events.antt =====
-- librecomp/src/mod_events.cpp: the listeners of the mods' events.
pub mod Fired
use n64modern_runtime.Base.{
  ℕ, zero, suc, Option, none, some, List, [], ◌∷◌, ◌++◌, leb, if◌then◌else◌,
}
use mathlib.Core.Option

pub record EventListener : Type 0 where
  pub mod_index : ℕ
  pub func : ℕ

-- `g_event_listeners`: the listeners of each event.
abbrev pub Listeners : Type 0
Listeners = List (List EventListener)

-- `resize`: cut off, or filled up with events that nothing listens to.
unfoldable pub setup_events : (num_events : ℕ) → Listeners → Listeners
setup_events zero l = []
setup_events (suc n) [] = [] ∷ setup_events n []
setup_events (suc n) (e ∷ l) = e ∷ setup_events n l

-- An index of no event is undefined.
unfoldable pub register_event_callback :
    (event_index mod_index callback : ℕ) → Listeners → Option Listeners
register_event_callback i m callback [] = none
register_event_callback zero m callback (e ∷ l) =
    some ((e ++ record { mod_index = m; func = callback } ∷ []) ∷ l)
register_event_callback (suc i) m callback (e ∷ l) =
    Option.map (λ k. e ∷ k) (register_event_callback i m callback l)

-- `std::sort` by the order in which the mods are loaded, which is an argument. It promises no order
-- of the listeners of one mod: here by insertion.
module _ (order_index : ℕ → ℕ) where
  unfoldable pub insert_listener : EventListener → List EventListener → List EventListener
  insert_listener a [] = a ∷ []
  insert_listener a (b ∷ l) =
      let rest = insert_listener a l in
      if leb (order_index a.mod_index) (order_index b.mod_index) then a ∷ b ∷ l else b ∷ rest

  unfoldable pub sort_listeners : List EventListener → List EventListener
  unfolding insert_listener
  sort_listeners [] = []
  sort_listeners (a ∷ l) = insert_listener a (sort_listeners l)

  unfoldable pub finish_event_setup : Listeners → Listeners
  unfolding sort_listeners
  finish_event_setup [] = []
  finish_event_setup (e ∷ l) = sort_listeners e ∷ finish_event_setup l

-- A call of a listener, which is code of a mod, changes the memory and the context.
module _ {S C : Type 0} (call : (func : ℕ) → S → C → S × C) where
  unfoldable pub run_listeners : List EventListener → (fired : C) → S × C → S × C
  run_listeners [] fired r = r
  run_listeners (a ∷ l) fired (s, ctx) = run_listeners l fired ((call a.func s ctx).0, fired)

  -- `none` stands for the exit of the process.
  unfoldable pub recomp_trigger_event : (event_index : ℕ) → Listeners → S → C → Option (S × C)
  unfolding run_listeners
  recomp_trigger_event i [] s ctx = none
  recomp_trigger_event zero (e ∷ l) s ctx = some (run_listeners e ctx (s, ctx))
  recomp_trigger_event (suc i) (e ∷ l) s ctx = recomp_trigger_event i l s ctx
