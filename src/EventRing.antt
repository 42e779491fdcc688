-- ===== src/EventRing.antt =====
-- The always-on diagnostic rings of mesgqueue.cpp and threadqueue.cpp: `record` writes the event
-- at `next_seq % RING_CAP`, and the `*_recent_copy` accessors read the newest events back.
pub mod Recent
use n64modern_runtime.Base.{
  ℕ, zero, suc, ◌+◌, ◌-◌, ◌%◌, ◌^◌, min, Bool, ◌||◌, List, [], ◌∷◌, ◌==◌, if◌then◌else◌, update,
}

abbrev pub ring_cap : ℕ
ring_cap = 65536

pub record Ring {ℓ} (A : Type ℓ) : Type ℓ where
  pub next_seq : ℕ
  pub slot : ℕ → A

module _ {ℓ} {A : Type ℓ} where
  -- `fetch_add` on the 64-bit counter, then the store into the slot of the old value.
  unfoldable pub push : Ring A → A → Ring A
  push r e = record {
    next_seq = (r.next_seq + 1) % 2 ^ 64;
    slot = update r.slot (r.next_seq % ring_cap) e;
  }

  -- `for (i = 0; i < want; i++) out[i] = ring[(start + i) % RING_CAP]`, from `i` on.
  copy_from : Ring A → ℕ → ℕ → ℕ → List A
  copy_from r start i zero = []
  copy_from r start i (suc n) = r.slot ((start + i) % ring_cap) ∷ copy_from r start (i + 1) n

  -- The events copied, `*n_written` and `*next_seq_out`; `out_null` is `out_void == nullptr`.
  unfoldable pub recent_copy : Ring A → Bool → ℕ → List A × ℕ × ℕ
  unfolding copy_from
  recent_copy r out_null cap =
      let want = min cap (min r.next_seq ring_cap) in
      if cap == 0 || out_null
      then ([], 0, r.next_seq)
      else (copy_from r ((r.next_seq - want) % ring_cap) 0 want, want, r.next_seq)
