-- ===== src/Joybus/Frames.antt =====
-- The joybus parser comes to its end, and what it does to the block.
use n64modern_runtime.Base.{
  ℕ, zero, suc, ◌+◌, ◌%◌, ◌≤◌, ◌<◌, ◌≡◌, refl, ◌∙◌, inl, inr, true, false, ◌&&◌, some, List, [],
  ◌∷◌, ◌++◌, arith, ltb, leb, ◌==◌, if◌then◌else◌, Bool-cases, if_cases, length, set, length-set,
  get_or, replicate,
}
use n64modern_runtime.GbCart.Blocks.{Paks, Environment, has_pak, read_block, write_block}
use n64modern_runtime.Joybus.{
  data_crc, Joybus, Run, Frame, frame_at, store, fetch, address_of, no_device, reads_to,
  answer_info, answer_read, answer_write, answer, Step, step_frame, step, run, run_joybus, finished,
  overrun, stop, outside, next,
}

length-store : (blk : List ℕ) (i : ℕ) (vs : List ℕ) → length (store blk i vs) ≡ length blk
unfolding store
length-store blk i [] = refl
length-store blk i (v ∷ vs) = length-store (set blk i v) (i + 1) vs ∙ length-set blk i v

-- The block keeps its size.
abbrev Sized : Joybus → Joybus → Type 0
Sized j j' = length j'.blk ≡ length j.blk

no_device-Sized : (j : Joybus) → Sized j (no_device j)
unfolding no_device
no_device-Sized j = length-set j.blk (j.p + 1) (get_or j.blk (j.p + 1) 0 % 0x80 + 0x80)

answer_info-Sized : (j : Joybus) (f : Frame) → Sized j (answer_info j f)
unfolding answer_info
answer_info-Sized j f =
    if_cases (Sized j) (leb 3 f.rx)
      (λ e.
        length-store j.blk f.rx_i
          (0x05 ∷ 0x00 ∷ (if has_pak j.paks j.chan then 0x01 else 0x00) ∷ []))
      (λ e. refl)

answer_read-Sized : (e : Environment) (j : Joybus) (f : Frame) → Sized j (answer_read e j f)
unfolding answer_read
answer_read-Sized e j f =
    let r = read_block e j.paks j.chan (address_of j.blk f.cmd_i) false in
    if_cases (Sized j) (r.0 == 0 && leb 33 f.rx)
      (λ q. length-store j.blk f.rx_i (r.1 ++ data_crc r.1 ∷ []))
      (λ q. no_device-Sized (record j { paks = r.2 }))

answer_write-Sized : (e : Environment) (j : Joybus) (f : Frame) → Sized j (answer_write e j f)
unfolding answer_write
answer_write-Sized e j f =
    let data_ = fetch j.blk (f.cmd_i + 3) 32 in
    let r = write_block e j.paks j.chan (address_of j.blk f.cmd_i) (some data_) in
    if_cases (Sized j) (r.0 == 0 && leb 1 f.rx) (λ q. length-set j.blk f.rx_i (data_crc data_))
      (λ q. no_device-Sized (record j { paks = r.1 }))

answer-Sized : (e : Environment) (j : Joybus) (f : Frame) (cmd : ℕ) → Sized j (answer e j f cmd)
unfolding answer
answer-Sized e j f cmd =
    if_cases (Sized j) (cmd == 0x00) (λ q. answer_info-Sized j f)
      (λ q.
        if_cases (Sized j) (cmd == 0x02) (λ q₁. answer_read-Sized e j f)
          (λ q₁.
            if_cases (Sized j) (cmd == 0x03) (λ q₂. answer_write-Sized e j f)
              (λ q₂.
                if_cases (Sized j) (cmd == 0x01)
                  (λ q₃. length-store j.blk f.rx_i (replicate f.rx 0)) (λ q₃. refl))))

-- A step that goes on gets past the current position.
abbrev Good : Joybus → Step → Type 0
Good j (next j') = (j.p < j'.p) × Sized j j'
Good j (stop j') = Sized j j'
Good j (outside j') = Sized j j'

step_frame-Good :
    (e : Environment) (j : Joybus) (f : Frame) → j.p < f.rx_i + f.rx → Good j (step_frame e j f)
unfolding step_frame
step_frame-Good e j f h =
    let cmd = get_or j.blk f.cmd_i 0 in
    if_cases (Good j) (ltb 64 (f.rx_i + f.rx)) (λ q. refl)
      (λ q.
        if_cases (Good j) (ltb 3 j.chan) (λ q₁. (h, refl))
          (λ q₁.
            if_cases (Good j) (ltb (length j.blk) (reads_to cmd f)) (λ q₂. refl)
              (λ q₂. (h, answer-Sized e j f cmd))))

step-Good : (e : Environment) (j : Joybus) → Good j (step e j)
unfolding step frame_at
step-Good e j =
    let t = get_or j.blk j.p 0 in
    if_cases (Good j) (t == 0xFE) (λ q. refl)
      (λ q.
        if_cases (Good j) (t == 0xFF) (λ q₁. (omega arith, refl))
          (λ q₁.
            if_cases (Good j) (t == 0x00) (λ q₂. (omega arith, refl))
              (λ q₂.
                if_cases (Good j) (t == 0xFD) (λ q₃. (omega arith, refl))
                  (λ q₃. step_frame-Good e j (frame_at j.blk j.p) (omega arith)))))

-- The block that a run ends with.
abbrev pub block_of : Run → List ℕ
block_of (finished j) = j.blk
block_of (overrun j) = j.blk

abbrev Ends : Environment → ℕ → Joybus → Type 0
Ends e n j = (r : Run) × (run e n j ≡ some r) × (length (block_of r) ≡ length j.blk)

run_next :
    (e : Environment) (n : ℕ) (j : Joybus) (st : Step)
    → ltb j.p 63 ≡ true
    → step e j ≡ st
    → Good j st
    → ((j' : Joybus) → j.p < j'.p → Ends e n j')
    → Ends e (suc n) j
unfolding run
run_next e n j (next j') lo eq g ih = let r = ih j' g.0 in (r.0, rw (lo, eq) r.1, r.2 ∙ g.1)
run_next e n j (stop j') lo eq g ih = (finished j', rw (lo, eq) refl, g)
run_next e n j (outside j') lo eq g ih = (overrun j', rw (lo, eq) refl, g)

run-Ends : (e : Environment) (n : ℕ) (j : Joybus) → 63 ≤ j.p + n → Ends e n j
unfolding run
run-Ends e zero j h = (finished j, ground arith, refl)
run-Ends e (suc n) j h = elim (Bool-cases (ltb j.p 63)) [
  | inl lo ↦
      run_next e n j (step e j) lo refl (step-Good e j) (λ j' g. run-Ends e n j' (omega arith))
  | inr hi ↦ (finished j, rw (hi) refl, refl)
]

-- Whatever bytes the block holds, the parser ends within its 63 steps, and the block that it
-- leaves is as long as the one that it was given.
pub run_joybus_ends :
    (e : Environment) (s : Paks) (block : List ℕ)
    → (r : Run) × (run_joybus e s block ≡ some r) × (length (block_of r) ≡ length block)
run_joybus_ends e s block =
    run-Ends e 63 (record { blk = block; paks = s; chan = 0; p = 0 }) (omega arith)
