-- ===== src/Base/Guest.antt =====
-- The guest memory (RDRAM). Its accessors `MEM_B` and `MEM_W` are macros of the recompiler's
-- `recomp.h`, which is no part of this repository: they enter as an interface, with the two laws
-- of a store.
use n64modern_runtime.Base.{
  ℕ, zero, suc, ◌+◌, ◌/◌, ◌%◌, ◌^◌, ◌<◌, ◌≡◌, ◌≢◌, List, [], ◌∷◌, arith, ◌==◌, if◌then◌else◌,
}

pub record GuestMemory : Type 1 where
  pub Mem : Type 0
  -- `MEM_B(0, a)` as a value and as the target of an assignment; bytes are unsigned here.
  pub mem_b : Mem → ℕ → ℕ
  pub set_mem_b : Mem → ℕ → ℕ → Mem
  -- `MEM_W(0, a) = v`
  pub set_mem_w : Mem → ℕ → ℕ → Mem
  pub mem_b-set_self : (m : Mem) (a v : ℕ) → v < 256 → mem_b (set_mem_b m a v) a ≡ v
  pub mem_b-set_ne : (m : Mem) (a b v : ℕ) → a ≢ b → mem_b (set_mem_b m a v) b ≡ mem_b m b

pub flat_self : (m : ℕ → ℕ) (a v : ℕ) → (if a == a then v else m a) ≡ v
flat_self m a v = ground arith

pub flat_ne : (m : ℕ → ℕ) (a b v : ℕ) → a ≢ b → (if a == b then v else m b) ≡ m b
flat_ne m a b v h = ground arith

-- A word as four bytes, the highest first.
abbrev flat_set_w : (ℕ → ℕ) → ℕ → ℕ → ℕ → ℕ
flat_set_w m a v b =
    if b == a
    then v / 2 ^ 24 % 256
    else if b == a + 1
    then v / 2 ^ 16 % 256
    else if b == a + 2
    then v / 2 ^ 8 % 256
    else if b == a + 3
    then v % 256
    else m b

-- A memory that is a function from addresses to bytes meets the laws.
abbrev pub flat_memory : GuestMemory
flat_memory = record {
  Mem = ℕ → ℕ;
  mem_b = λ m a. m a;
  set_mem_b = λ m a v b. if a == b then v else m b;
  set_mem_w = flat_set_w;
  mem_b-set_self = λ m a v h. flat_self m a v;
  mem_b-set_ne = flat_ne;
}

module _ (G : GuestMemory) where
  -- `n` bytes from the address `a` on, and a run of bytes written from `a` on.
  unfoldable pub load_bytes : G.Mem → ℕ → ℕ → List ℕ
  load_bytes m a zero = []
  load_bytes m a (suc n) = G.mem_b m a ∷ load_bytes m (a + 1) n

  unfoldable pub store_bytes : G.Mem → ℕ → List ℕ → G.Mem
  store_bytes m a [] = m
  store_bytes m a (v ∷ vs) = store_bytes (G.set_mem_b m a v) (a + 1) vs
