-- ===== src/Save/Bytes.antt =====
-- The bytes of the save buffer: what a write leaves behind.
use n64modern_runtime.Base.{
  ℕ, zero, suc, ◌+◌, ◌≤◌, ◌<◌, ◌≡◌, refl, ap, ap₂, ◌∙◌, ◌≢◌, ◌⊎◌, inl, inr, some, List, [], ◌∷◌,
  arith, length, set, length-set, get_or,
}
use n64modern_runtime.Save.{Save, write_at, read_at, save_write_ptr}

get_or-set_self : (l : List ℕ) (i v d : ℕ) → i < length l → get_or (set l i v) i d ≡ v
get_or-set_self [] i v d h = ground arith
get_or-set_self (x ∷ l) zero v d h = refl
get_or-set_self (x ∷ l) (suc i) v d h = get_or-set_self l i v d (omega arith)

get_or-set_ne : (l : List ℕ) (i j v d : ℕ) → i ≢ j → get_or (set l i v) j d ≡ get_or l j d
get_or-set_ne [] i j v d h = refl
get_or-set_ne (x ∷ l) zero zero v d h = ground arith
get_or-set_ne (x ∷ l) zero (suc j) v d h = refl
get_or-set_ne (x ∷ l) (suc i) zero v d h = refl
get_or-set_ne (x ∷ l) (suc i) (suc j) v d h = get_or-set_ne l i j v d (λ e. h (ap (λ k. suc k) e))

length-write_at : (l : List ℕ) (o : ℕ) (bs : List ℕ) → length (write_at l o bs) ≡ length l
unfolding write_at
length-write_at l o [] = refl
length-write_at l o (b ∷ bs) = length-write_at (set l o b) (o + 1) bs ∙ length-set l o b

-- A write leaves the bytes outside of its range as they were.
get_or-write_at_before :
    (l : List ℕ) (o j d : ℕ) (bs : List ℕ) → j < o → get_or (write_at l o bs) j d ≡ get_or l j d
unfolding write_at
get_or-write_at_before l o j d [] h = refl
get_or-write_at_before l o j d (b ∷ bs) h =
    get_or-write_at_before (set l o b) (o + 1) j d bs (omega arith)
    ∙ get_or-set_ne l o j b d (λ e. omega arith)

get_or-write_at_after :
    (l : List ℕ) (o j d : ℕ) (bs : List ℕ)
    → o + length bs ≤ j
    → get_or (write_at l o bs) j d ≡ get_or l j d
unfolding write_at
get_or-write_at_after l o j d [] h = refl
get_or-write_at_after l o j d (b ∷ bs) h =
    get_or-write_at_after (set l o b) (o + 1) j d bs (omega arith)
    ∙ get_or-set_ne l o j b d (λ e. omega arith)

-- Reading back what was written.
read_at-write_at :
    (l : List ℕ) (o : ℕ) (bs : List ℕ)
    → o + length bs ≤ length l
    → read_at (write_at l o bs) o (length bs) ≡ bs
unfolding write_at read_at
read_at-write_at l o [] h = refl
read_at-write_at l o (b ∷ bs) h =
    ap₂ (λ (x : ℕ) (xs : List ℕ). x ∷ xs)
      (get_or-write_at_before (set l o b) (o + 1) o 0 bs (omega arith)
        ∙ get_or-set_self l o b 0 (omega arith))
      (read_at-write_at (set l o b) (o + 1) bs (omega (arith, length-set l o b)))

-- Two buffers that agree on a range read the same there.
read_at-cong :
    (l l' : List ℕ) (o n : ℕ)
    → ((j : ℕ) → o ≤ j → j < o + n → get_or l j 0 ≡ get_or l' j 0)
    → read_at l o n ≡ read_at l' o n
unfolding read_at
read_at-cong l l' o zero h = refl
read_at-cong l l' o (suc n) h =
    ap₂ (λ (x : ℕ) (xs : List ℕ). x ∷ xs) (h o (omega arith) (omega arith))
      (read_at-cong l l' (o + 1) n (λ j p q. h j (omega arith) (omega arith)))

-- `save_write_ptr` inside of the buffer succeeds with one more signal to the saving thread: the
-- bytes can be read back from where they were written, a range of `n` bytes from `o` on that lies
-- in front of them or behind them reads as before, and the buffer keeps its size.
pub save_write_ptr_stores :
    (s : Save) (bytes : List ℕ) (offset o n : ℕ)
    → offset + length bytes ≤ length s.save_buffer
    → (o + n ≤ offset) ⊎ (offset + length bytes ≤ o)
    → (s' : Save) × (save_write_ptr s bytes offset ≡ some s')
      × (s'.writes ≡ s.writes + 1)
      × (length s'.save_buffer ≡ length s.save_buffer)
      × (read_at s'.save_buffer offset (length bytes) ≡ bytes)
      × (read_at s'.save_buffer o n ≡ read_at s.save_buffer o n)
unfolding save_write_ptr
save_write_ptr_stores s bytes offset o n h apart = (
  record { save_buffer = write_at s.save_buffer offset bytes; writes = s.writes + 1 },
  ground arith,
  refl,
  length-write_at s.save_buffer offset bytes,
  read_at-write_at s.save_buffer offset bytes h,
  read_at-cong (write_at s.save_buffer offset bytes) s.save_buffer o n
      (λ j a b. outside j a b apart),
)
  where
    outside :
        (j : ℕ)
        → o ≤ j
        → j < o + n
        → (o + n ≤ offset) ⊎ (offset + length bytes ≤ o)
        → get_or (write_at s.save_buffer offset bytes) j 0 ≡ get_or s.save_buffer j 0
    outside j a b (inl p) = get_or-write_at_before s.save_buffer offset j 0 bytes (omega arith)
    outside j a b (inr p) = get_or-write_at_after s.save_buffer offset j 0 bytes (omega arith)
