-- ===== src/Mods/Events/Fired.antt =====
-- An event that is fired: its listeners run in the order of their mods and see the same context.
use n64modern_runtime.Base.{
  ℕ, zero, suc, ◌≤◌, ◌≡◌, refl, ap, some, List, [], ◌∷◌, arith, leb, leb→le, if_cases, get_elem?,
  All, All-map,
}
use mathlib.Core.List.{Perm}
use mathlib.Core.Option.{some-injective}
use mathlib.Core.Path.{subst}
use n64modern_runtime.Mods.Events.{
  EventListener, Listeners, insert_listener, sort_listeners, finish_event_setup, run_listeners,
  recomp_trigger_event,
}
use mathlib.Core.List.Perm

module _ (order_index : ℕ → ℕ) where
  abbrev pub IsBefore : EventListener → EventListener → Type 0
  IsBefore a b = order_index a.mod_index ≤ order_index b.mod_index

  abbrev pub IsInOrder : List EventListener → Type 0
  IsInOrder [] = Unit
  IsInOrder (a ∷ l) = All (IsBefore a) l × IsInOrder l

  insert_listener-All :
      (P : EventListener → Type 0) (a : EventListener) (l : List EventListener)
      → P a
      → All P l
      → All P (insert_listener order_index a l)
  unfolding insert_listener
  insert_listener-All P a [] h hs = (h, tt)
  insert_listener-All P a (b ∷ l) h (hb, hs) =
      if_cases (All P) (leb (order_index a.mod_index) (order_index b.mod_index))
        (λ _. (h, (hb, hs))) (λ _. (hb, insert_listener-All P a l h hs))

  insert_listener-IsInOrder :
      (a : EventListener) (l : List EventListener)
      → IsInOrder l
      → IsInOrder (insert_listener order_index a l)
  unfolding insert_listener
  insert_listener-IsInOrder a [] h = (tt, tt)
  insert_listener-IsInOrder a (b ∷ l) (h, hs) =
      let x = order_index a.mod_index in
      let y = order_index b.mod_index in
      if_cases IsInOrder (leb x y)
        (λ e. let le = leb→le x y e in ((le, All-map l (λ c k. omega (arith, le, k)) h), (h, hs)))
        (λ e. (
          insert_listener-All (IsBefore b) a l (ground (arith, e)) h,
          insert_listener-IsInOrder a l hs,
        ))

  sort_listeners-IsInOrder : (l : List EventListener) → IsInOrder (sort_listeners order_index l)
  unfolding sort_listeners
  sort_listeners-IsInOrder [] = tt
  sort_listeners-IsInOrder (a ∷ l) = insert_listener-IsInOrder a _ (sort_listeners-IsInOrder l)

  insert_listener-perm :
      (a : EventListener) (l : List EventListener) → Perm (insert_listener order_index a l) (a ∷ l)
  unfolding insert_listener
  insert_listener-perm a [] = Perm.refl (a ∷ [])
  insert_listener-perm a (b ∷ l) =
      if_cases (λ (z : List EventListener). Perm z (a ∷ b ∷ l))
        (leb (order_index a.mod_index) (order_index b.mod_index)) (λ _. Perm.refl (a ∷ b ∷ l))
        (λ _. Perm.trans (Perm.cons b (insert_listener-perm a l)) (Perm.swap a b l))

  sort_listeners-perm : (l : List EventListener) → Perm (sort_listeners order_index l) l
  unfolding sort_listeners
  sort_listeners-perm [] = Perm.nil
  sort_listeners-perm (a ∷ l) =
      Perm.trans (insert_listener-perm a (sort_listeners order_index l))
        (Perm.cons a (sort_listeners-perm l))

  -- The listeners in the order of their mods, none left out and none added.
  abbrev pub IsSortOf : (listeners sorted : List EventListener) → Type 0
  IsSortOf l e = IsInOrder e × Perm e l

module _ {S C : Type 0} (call : (func : ℕ) → S → C → S × C) where
  -- The memory after the listeners, each of which is called with the context of the event.
  unfoldable pub called_all : List EventListener → (fired : C) → S → S
  called_all [] fired s = s
  called_all (a ∷ l) fired s = called_all l fired (call a.func s fired).0

  run_listeners-called_all :
      (l : List EventListener) (fired : C) (s : S)
      → run_listeners call l fired (s, fired) ≡ (called_all l fired s, fired)
  unfolding run_listeners called_all
  run_listeners-called_all [] fired s = refl
  run_listeners-called_all (a ∷ l) fired s =
      run_listeners-called_all l fired (call a.func s fired).0

  -- After the setup of the events is finished, an event that is fired calls its listeners, all of
  -- them and no others, in the order in which their mods are loaded, each with the context that the
  -- event was fired with, and leaves that context as it was.
  pub recomp_trigger_event-finish_event_setup :
      (order_index : ℕ → ℕ) (i : ℕ) (l : Listeners) (listeners : List EventListener) (s : S)
      (ctx : C)
      → get_elem? l i ≡ some listeners
      → (e : List EventListener) × IsSortOf order_index listeners e
        × (recomp_trigger_event call i (finish_event_setup order_index l) s ctx
            ≡ some (called_all e ctx s, ctx))
  unfolding recomp_trigger_event finish_event_setup
  recomp_trigger_event-finish_event_setup order_index i [] listeners s ctx h =
      absurd (ground (arith, h))
  recomp_trigger_event-finish_event_setup order_index zero (e ∷ l) listeners s ctx h =
      let sorted = sort_listeners order_index e in
      (
        sorted,
        subst (λ (z : List EventListener). IsSortOf order_index z sorted)
            (some-injective e listeners h)
            (sort_listeners-IsInOrder order_index e, sort_listeners-perm order_index e),
        ap some (run_listeners-called_all sorted ctx s),
      )
  recomp_trigger_event-finish_event_setup order_index (suc i) (e ∷ l) listeners s ctx h =
      recomp_trigger_event-finish_event_setup order_index i l listeners s ctx h
