-- ===== src/MesgQueue/Buffer.antt =====
-- The circular buffer of a message queue as the list of the messages that it holds, oldest first.
use n64modern_runtime.Base.{
  ℕ, zero, suc, ◌+◌, ◌-◌, ◌*◌, ◌%◌, ◌≤◌, ◌<◌, ◌≡◌, refl, ap, ap₂, ◌∙◌, ◌≢◌, inl, inr, List, [], ◌∷◌,
  ◌++◌, arith, ltb, if◌then◌else◌, ltb→lt, ==_iff, ltb-false, ==_apart, Bool-cases, update,
}
use n64modern_runtime.Base.Int.{pos}
use native.Mathlib.Nat.{mod-lt, mod-eq_of_lt, mod-add-mod, mod-eq-sub-mod}
use n64modern_runtime.MesgQueue.{MesgQueue}

-- The counters in range: `n` messages from index `f` on, round at `c`.
pub record Shape (q : MesgQueue) (f n c : ℕ) : Type 0 where
  pub first_is : q.first ≡ pos f
  pub count_is : q.valid_count ≡ pos n
  pub size_is : q.msg_count ≡ pos c
  pub first_in : f < c
  pub count_in : n ≤ c
  pub size_in : c ≤ 0x10000

-- The index of the `k`-th message.
abbrev pub index : ℕ → ℕ → ℕ → ℕ
index c f k = (f + k) % c

pub index_lem :
    (c f k : ℕ) → f < c → k ≤ c → index c f k ≡ (if ltb (f + k) c then f + k else f + k - c)
index_lem c f k hf hk = elim (Bool-cases (ltb (f + k) c)) [
  | inl e ↦ rw (e, mod-eq_of_lt (ltb→lt (f + k) c e))
  | inr e ↦ rw (
    e,
    mod-eq-sub-mod {n = f + k} {m = c} (omega (arith, ltb-false (f + k) c e)),
    mod-eq_of_lt {n = f + k - c} {m = c} (omega arith),
  )
]

module _ (w : ℕ → ℕ) (base c : ℕ) where
  -- `n` messages from the `k`-th on.
  unfoldable pub messages_from : ℕ → ℕ → ℕ → List ℕ
  messages_from f k zero = []
  messages_from f k (suc n) = w (base + 4 * index c f k) ∷ messages_from f (k + 1) n

abbrev pub messages : (ℕ → ℕ) → MesgQueue → ℕ → ℕ → ℕ → List ℕ
messages w q f n c = messages_from w q.msg c f 0 n

-- A write outside the run of messages.
pub messages_from-out :
    (w : ℕ → ℕ) (base c f k n a v : ℕ)
    → ((j : ℕ) → k ≤ j → j < k + n → a ≢ base + 4 * index c f j)
    → messages_from (update w a v) base c f k n ≡ messages_from w base c f k n
unfolding messages_from
messages_from-out w base c f k zero a v out = refl
messages_from-out w base c f k (suc n) a v out =
    rw (==_apart a (base + 4 * index c f k) (out k (omega arith) (omega arith))) (
      ap (λ l. w (base + 4 * index c f k) ∷ l)
        (messages_from-out w base c f (k + 1) n a v (λ j p q. out j (omega arith) (omega arith))))

messages_from-end :
    (w : ℕ → ℕ) (base c f k n : ℕ)
    → messages_from w base c f k (suc n)
      ≡ messages_from w base c f k n ++ w (base + 4 * index c f (k + n)) ∷ []
unfolding messages_from
messages_from-end w base c f k zero = ap (λ j. w (base + 4 * index c f j) ∷ []) (omega arith)
messages_from-end w base c f k (suc n) =
    ap (λ l. w (base + 4 * index c f k) ∷ l)
      (messages_from-end w base c f (k + 1) n
        ∙ ap (λ j. messages_from w base c f (k + 1) n ++ w (base + 4 * index c f j) ∷ [])
            (omega arith))

-- Two messages of a queue stand in different slots.
index_apart : (c f j k : ℕ) → f < c → j < k → k < c + j → j < c → k ≤ c → index c f j ≢ index c f k
index_apart c f j k hf h1 h2 h3 h4 =
    ground (arith, index_lem c f j hf (omega arith), index_lem c f k hf h4)

-- Writing the slot after the last message appends to the list.
pub messages_append :
    (w : ℕ → ℕ) (base c f n m : ℕ)
    → f < c
    → n < c
    → messages_from (update w (base + 4 * index c f n) m) base c f 0 (suc n)
      ≡ messages_from w base c f 0 n ++ m ∷ []
unfolding messages_from
messages_append w base c f n m hf hn =
    messages_from-end (update w (base + 4 * index c f n) m) base c f 0 n
    ∙ ap₂ (λ (l : List ℕ) (x : ℕ). l ++ x ∷ []) before last
  where
    before :
        messages_from (update w (base + 4 * index c f n) m) base c f 0 n
        ≡ messages_from w base c f 0 n
    before = messages_from-out w base c f 0 n (base + 4 * index c f n) m (λ j p q e.
        index_apart c f j n hf (omega arith) (omega arith) (omega arith) (omega arith)
          (omega arith))

    last : update w (base + 4 * index c f n) m (base + 4 * index c f (0 + n)) ≡ m
    last =
        let same : n ≡ 0 + n = omega arith in
        rw (
          (==_iff (base + 4 * index c f n) (base + 4 * index c f (0 + n))).1
            (ap (λ j. base + 4 * index c f j) same))

index_next : (c f k : ℕ) → index c ((f + 1) % c) k ≡ index c f (k + 1)
index_next c f k = mod-add-mod (f + 1) c k ∙ ap (λ (x : ℕ). x % c) (omega arith)

-- Moving the start by one slot moves every index.
pub messages_from-next :
    (w : ℕ → ℕ) (base c f k n : ℕ)
    → messages_from w base c ((f + 1) % c) k n ≡ messages_from w base c f (k + 1) n
unfolding messages_from
messages_from-next w base c f k zero = refl
messages_from-next w base c f k (suc n) =
    rw (index_next c f k)
      (ap (λ l. w (base + 4 * index c f (k + 1)) ∷ l) (messages_from-next w base c f (k + 1) n))

index_back : (c f k : ℕ) → f < c → index c ((f + c - 1) % c) (k + 1) ≡ index c f k
index_back c f k h =
    mod-add-mod (f + c - 1) c (k + 1)
    ∙ ap (λ (x : ℕ). x % c) {x = f + c - 1 + (k + 1)} {y = f + k + c} (omega arith)
    ∙ mod-eq-sub-mod {n = f + k + c} {m = c} (omega arith)
    ∙ ap (λ (x : ℕ). x % c) {x = f + k + c - c} {y = f + k} (omega arith)

messages_from-back :
    (w : ℕ → ℕ) (base c f k n : ℕ)
    → f < c
    → messages_from w base c ((f + c - 1) % c) (k + 1) n ≡ messages_from w base c f k n
unfolding messages_from
messages_from-back w base c f k zero h = refl
messages_from-back w base c f k (suc n) h =
    rw (index_back c f k h)
      (ap (λ l. w (base + 4 * index c f k) ∷ l) (messages_from-back w base c f (k + 1) n h))

-- Writing the slot before the first message puts a message in front of the list.
pub messages_prepend :
    (w : ℕ → ℕ) (base c f n m : ℕ)
    → f < c
    → n < c
    → let f' = (f + c - 1) % c in
      messages_from (update w (base + 4 * f') m) base c f' 0 (suc n)
      ≡ m ∷ messages_from w base c f 0 n
unfolding messages_from
messages_prepend w base c f n m hf hn =
    ap₂ (λ (x : ℕ) (l : List ℕ). x ∷ l) first
      (messages_from-out w base c f' 1 n (base + 4 * f') m apart
        ∙ messages_from-back w base c f 0 n hf)
  where
    f' : ℕ
    f' = (f + c - 1) % c

    in_range : f' < c
    in_range = mod-lt (f + c - 1) (omega arith)

    start : index c f' 0 ≡ f'
    start = index_lem c f' 0 in_range (omega arith) ∙ ground arith

    first : update w (base + 4 * f') m (base + 4 * index c f' 0) ≡ m
    first = rw ((==_iff (base + 4 * f') (base + 4 * index c f' 0)).1 (omega (arith, start)))

    apart : (j : ℕ) → 1 ≤ j → j < 1 + n → base + 4 * f' ≢ base + 4 * index c f' j
    apart j p q e =
        index_apart c f' 0 j in_range (omega arith) (omega arith) (omega arith) (omega arith)
          (omega (arith, start))
