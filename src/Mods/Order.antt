-- ===== src/Mods/Order.antt =====
-- librecomp/src/mods.cpp: ModContext::set_mod_index, which moves a mod in the order of mods. Entries
-- are indices of mods; a view shows the mods of one game, or all.
pub mod Moved
use n64modern_runtime.Base.{
  ℕ, zero, suc, ◌+◌, Bool, true, false, not, ◌&&◌, Option, none, some, List, [], ◌∷◌, ◌++◌, ◌==◌,
  if◌then◌else◌, length,
}
use mathlib.Core.Option

-- The state of the scan: the entries before position `i`, those from it on, the visible position,
-- and whether the mod was inserted and erased.
pub record Scan : Type 0 where
  pub kept : List ℕ
  pub rest : List ℕ
  pub visible_index : ℕ
  pub inserted : Bool
  pub erased : Bool

abbrev pub scan_at : (kept rest : List ℕ) → (visible_index : ℕ) → (inserted erased : Bool) → Scan
scan_at kept rest v inserted erased = record {
  kept = kept;
  rest = rest;
  visible_index = v;
  inserted = inserted;
  erased = erased;
}

-- The entry that an erasure moves to position `i`, and that the loop's increment then passes over.
abbrev pub passed_over : List ℕ → List ℕ
passed_over [] = []
passed_over (e ∷ l) = e ∷ []

abbrev pub behind_it : List ℕ → List ℕ
behind_it [] = []
behind_it (e ∷ l) = l

module _ (visible : ℕ → Bool) (mod_index index : ℕ) where
  -- The body of the loop; `none`: its condition is false.
  unfoldable pub scan_entry :
      (kept rest : List ℕ) → (v : ℕ) → (inserted erased : Bool) → Option Scan
  scan_entry kept [] v inserted erased = none
  scan_entry kept (e ∷ rest) v inserted erased =
      if inserted && erased
      then none
      else if not (visible e)
      then some (scan_at (kept ++ e ∷ []) rest v inserted erased)
      else if index == v
      then some (scan_at (kept ++ mod_index ∷ []) (e ∷ rest) (suc v) true erased)
      else if mod_index == e
      then some (scan_at (kept ++ passed_over rest) (behind_it rest) (suc v) inserted true)
      else some (scan_at (kept ++ e ∷ []) rest (suc v) inserted erased)

  abbrev pub go_on :
      (Scan → Option (List ℕ × Bool)) → List ℕ × Bool → Option Scan → Option (List ℕ × Bool)
  go_on again ended none = some ended
  go_on again ended (some s) = again s

  -- The loop, and the order and the flag that it leaves; `none`: the fuel ran out.
  unfoldable pub scan : ℕ → Scan → Option (List ℕ × Bool)
  scan zero s = none
  scan (suc f) s =
      go_on (scan f) (s.kept ++ s.rest, s.inserted)
        (scan_entry s.kept s.rest s.visible_index s.inserted s.erased)

  -- A slot past the end: the mod goes last.
  abbrev pub append_if_missing : List ℕ × Bool → List ℕ
  append_if_missing (l, inserted) = if inserted then l else l ++ mod_index ∷ []

  -- Each round passes an entry, and one of them inserts.
  unfoldable pub set_mod_index : List ℕ → Option (List ℕ)
  set_mod_index order =
      Option.map append_if_missing (scan (length order + 3) (scan_at [] order 0 false false))
