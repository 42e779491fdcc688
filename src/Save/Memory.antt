-- ===== src/Save/Memory.antt =====
-- Runs of bytes in the guest's memory: what is stored is what is loaded.
use n64modern_runtime.Base.{
  ℕ, zero, suc, ◌+◌, ◌<◌, ◌≡◌, refl, ap, ap₂, ◌∙◌, List, [], ◌∷◌, arith, length, All,
}
use n64modern_runtime.Base.Guest.{GuestMemory, load_bytes, store_bytes}

abbrev pub IsByte : ℕ → Type 0
IsByte v = v < 256

module _ (G : GuestMemory) where
  mem_b-store_before :
      (m : G.Mem) (a j : ℕ) (vs : List ℕ) → j < a → G.mem_b (store_bytes G m a vs) j ≡ G.mem_b m j
  unfolding store_bytes
  mem_b-store_before m a j [] h = refl
  mem_b-store_before m a j (v ∷ vs) h =
      mem_b-store_before (G.set_mem_b m a v) (a + 1) j vs (omega arith)
      ∙ G.mem_b-set_ne m a j v (λ e. omega arith)

  pub load_bytes-store :
      (m : G.Mem) (a : ℕ) (vs : List ℕ)
      → All IsByte vs
      → load_bytes G (store_bytes G m a vs) a (length vs) ≡ vs
  unfolding store_bytes load_bytes
  load_bytes-store m a [] h = refl
  load_bytes-store m a (v ∷ vs) h =
      ap₂ (λ (x : ℕ) (xs : List ℕ). x ∷ xs)
        (mem_b-store_before (G.set_mem_b m a v) (a + 1) a vs (omega arith)
          ∙ G.mem_b-set_self m a v h.0)
        (load_bytes-store (G.set_mem_b m a v) (a + 1) vs h.1)

  pub length-load_bytes : (m : G.Mem) (a n : ℕ) → length (load_bytes G m a n) ≡ n
  unfolding load_bytes
  length-load_bytes m a zero = refl
  length-load_bytes m a (suc n) = ap (λ k. suc k) (length-load_bytes m (a + 1) n)
