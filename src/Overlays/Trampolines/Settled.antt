-- ===== src/Overlays/Trampolines/Settled.antt =====
-- No jump slot of a fragment is lost: it leads to a function, or waits for one.
use n64modern_runtime.Base.{
  ℕ, zero, suc, ◌+◌, ◌*◌, ◌<◌, ◌≡◌, refl, ◌∙◌, ◌≢◌, ◌⊎◌, inl, inr, Option, none, some, List, [],
  ◌∷◌, arith, ◌==◌, ==_iff, if_cases, IsIn, IsIn-append_left, IsIn-append_right,
}
use mathlib.Core.Path.{subst}
use n64modern_runtime.Base.Bits.{u32}
use n64modern_runtime.Overlays.{SectionTableEntry, LoadedSection}
use n64modern_runtime.Overlays.Aliases.{FuncMap}
use n64modern_runtime.Overlays.Trampolines.{
  PendingTrampoline, Scan, slot_target, try_install_trampoline, or_keep, attempt, retry_each,
  retry_pending_trampolines, scan_slots,
}
use n64modern_runtime.Overlays.Trampolines.Installed.{AddsOnly, try_install_trampoline-IsInstalled}

abbrev pub LeadsSomewhere : (addr : ℕ) → FuncMap → Type 0
LeadsSomewhere addr m = (f : ℕ) × (m addr ≡ some f)

-- A call of the trampoline finds a function, or the trampoline is pending.
abbrev pub IsSettled : PendingTrampoline → Scan → Type 0
IsSettled t s = LeadsSomewhere t.trampoline_runtime_addr s.func_map ⊎ IsIn t s.pending

AddsOnly-LeadsSomewhere :
    (f a : ℕ) (m m' : FuncMap) → AddsOnly f m m' → LeadsSomewhere a m → LeadsSomewhere a m'
AddsOnly-LeadsSomewhere f a m m' h (g, e) = elim (h a) [ inl q ↦ (g, q ∙ e) | inr q ↦ (f, q) ]

module _ (sections : ℕ → SectionTableEntry) (loaded : List LoadedSection) where
  or_keep-IsSettled :
      (t u : PendingTrampoline) (s : Scan) (o : Option FuncMap)
      → try_install_trampoline sections loaded u.trampoline_runtime_addr u.link_time_target
          s.func_map
        ≡ o
      → IsSettled t s
      → IsSettled t (or_keep sections loaded u o s)
  or_keep-IsSettled t u s none e (inl h) = inl h
  or_keep-IsSettled t u s none e (inr h) = inr (IsIn-append_left t s.pending (u ∷ []) h)
  or_keep-IsSettled t u s (some m) e (inl h) =
      let (f, _, _, adds) =
        try_install_trampoline-IsInstalled sections loaded u.trampoline_runtime_addr
          u.link_time_target s.func_map m e in
      inl (AddsOnly-LeadsSomewhere f t.trampoline_runtime_addr s.func_map m adds h)
  or_keep-IsSettled t u s (some m) e (inr h) = inr h

  or_keep-settles :
      (t : PendingTrampoline) (s : Scan) (o : Option FuncMap)
      → try_install_trampoline sections loaded t.trampoline_runtime_addr t.link_time_target
          s.func_map
        ≡ o
      → IsSettled t (or_keep sections loaded t o s)
  or_keep-settles t s none e = inr (IsIn-append_right t s.pending (t ∷ []) (inl refl))
  or_keep-settles t s (some m) e =
      let (f, _, leads, _) =
        try_install_trampoline-IsInstalled sections loaded t.trampoline_runtime_addr
          t.link_time_target s.func_map m e in
      inl (f, leads)

  attempt-IsSettled :
      (t u : PendingTrampoline) (s : Scan)
      → IsSettled t s
      → IsSettled t (attempt sections loaded u s)
  unfolding attempt
  attempt-IsSettled t u s = or_keep-IsSettled t u s _ refl

  attempt-settles : (t : PendingTrampoline) (s : Scan) → IsSettled t (attempt sections loaded t s)
  unfolding attempt
  attempt-settles t s = or_keep-settles t s _ refl

  retry_each-IsSettled :
      (t : PendingTrampoline) (l : List PendingTrampoline) (s : Scan)
      → IsSettled t s ⊎ IsIn t l
      → IsSettled t (retry_each sections loaded l s)
  unfolding retry_each
  retry_each-IsSettled t [] s (inl h) = h
  retry_each-IsSettled t [] s (inr h) = elim h [ ]
  retry_each-IsSettled t (u ∷ l) s (inl h) =
      retry_each-IsSettled t l _ (inl (attempt-IsSettled t u s h))
  retry_each-IsSettled t (u ∷ l) s (inr (inl e)) = retry_each-IsSettled t l _ (
      inl (
        subst (λ (z : PendingTrampoline). IsSettled t (attempt sections loaded z s)) e
          (attempt-settles t s)))
  retry_each-IsSettled t (u ∷ l) s (inr (inr h)) = retry_each-IsSettled t l _ (inr h)

  pub retry_pending_trampolines-IsSettled :
      (t : PendingTrampoline) (s : Scan)
      → IsSettled t s
      → IsSettled t (retry_pending_trampolines sections loaded s)
  unfolding retry_pending_trampolines
  retry_pending_trampolines-IsSettled t s (inl h) = retry_each-IsSettled t s.pending _ (inl (inl h))
  retry_pending_trampolines-IsSettled t s (inr h) = retry_each-IsSettled t s.pending _ (inr h)

  pub scan_slots-IsSettled :
      (rdram : ℕ → ℕ) (t : PendingTrampoline) (base decode off count : ℕ) (s : Scan)
      → IsSettled t s
      → IsSettled t (scan_slots sections loaded rdram base decode off count s)
  unfolding scan_slots
  scan_slots-IsSettled rdram t base decode off zero s h = h
  scan_slots-IsSettled rdram t base decode off (suc n) s h =
      scan_slots-IsSettled rdram t base decode (off + 8) n _ (
        if_cases (IsSettled t) (slot_target rdram base decode off == 0) (λ _. h)
          (λ _. attempt-IsSettled t _ s h))

  -- The trampoline of a slot.
  abbrev pub trampoline_at : (rdram : ℕ → ℕ) (base decode off : ℕ) → PendingTrampoline
  trampoline_at rdram base decode off = record {
    trampoline_runtime_addr = u32 (base + off);
    link_time_target = slot_target rdram base decode off;
  }

  first_settles :
      (rdram : ℕ → ℕ) (base decode off n : ℕ) (s : Scan)
      → slot_target rdram base decode off ≢ 0
      → IsSettled
          (trampoline_at rdram base decode off)
          (scan_slots sections loaded rdram base decode off (suc n) s)
  unfolding scan_slots
  first_settles rdram base decode off n s jumps =
      let t = trampoline_at rdram base decode off in
      scan_slots-IsSettled rdram t base decode (off + 8) n _ (
        if_cases (IsSettled t) (slot_target rdram base decode off == 0)
          (λ e. absurd (jumps ((==_iff (slot_target rdram base decode off) 0).0 e)))
          (λ _. attempt-settles t s))

  -- The slot with the number k, at the offset x.
  pub scan_slots-settles :
      (rdram : ℕ → ℕ) (base decode off count k x : ℕ) (s : Scan)
      → x ≡ off + 8 * k
      → k < count
      → slot_target rdram base decode x ≢ 0
      → IsSettled
          (trampoline_at rdram base decode x)
          (scan_slots sections loaded rdram base decode off count s)
  unfolding scan_slots
  scan_slots-settles rdram base decode off zero k x s at h = absurd (omega (arith, h))
  scan_slots-settles rdram base decode off (suc n) zero x s at h =
      subst
        (λ (z : ℕ).
          slot_target rdram base decode z ≢ 0
          → IsSettled (trampoline_at rdram base decode z)
              (scan_slots sections loaded rdram base decode off (suc n) s))
        (omega (arith, at)) (first_settles rdram base decode off n s)
  scan_slots-settles rdram base decode off (suc n) (suc k) x s at h =
      scan_slots-settles rdram base decode (off + 8) n k x _ (omega (arith, at)) (omega (arith, h))
