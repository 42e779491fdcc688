-- ===== src/Joybus.antt =====
-- librecomp/src/si_joybus.cpp: the joybus commands of a 64-byte PIF block, answered from the
-- Transfer Pak model. An access outside of the block ends the run with `overrun`.
pub mod Frames
use n64modern_runtime.Base.{
  ℕ, zero, suc, ◌+◌, ◌*◌, ◌/◌, ◌%◌, bit_xor, Bool, false, ◌&&◌, Option, none, some, List, [], ◌∷◌,
  ◌++◌, ltb, leb, ◌==◌, if◌then◌else◌, length, set, get_or, replicate,
}
use n64modern_runtime.Base.Bits.{u8, u32, bit}
use n64modern_runtime.GbCart.Blocks.{Paks, Environment, has_pak, read_block, write_block}

-- One bit into the CRC register; `crc` is a 32-bit word.
unfoldable pub crc_step : ℕ → Bool → ℕ
crc_step crc b =
    let xorv = if crc / 0x80 % 2 == 1 then 0x85 else 0 in
    bit_xor (u32 (2 * crc) + (if b then 1 else 0)) xorv

-- The eight bits of a byte, the highest first.
unfoldable pub crc_byte : ℕ → ℕ → ℕ
crc_byte crc v =
    let s = λ (c : ℕ) (k : ℕ). crc_step c (bit v k) in
    s (s (s (s (s (s (s (s crc 7) 6) 5) 4) 3) 2) 1) 0

-- The bytes of `data`, then eight zero bits.
unfoldable pub crc_bytes : ℕ → List ℕ → ℕ
crc_bytes crc [] = crc_byte crc 0
crc_bytes crc (v ∷ vs) = crc_bytes (crc_byte crc v) vs

abbrev pub data_crc : List ℕ → ℕ
data_crc data_ = u8 (crc_bytes 0 data_)

-- The PIF block, the Transfer Paks, the channel and the position of the parser.
pub record Joybus : Type 0 where
  pub blk : List ℕ
  pub paks : Paks
  pub chan : ℕ
  pub p : ℕ

pub data Run : Type 0 where
  finished : Joybus → Run
  overrun : Joybus → Run

-- A frame: its positions in the block, and the sizes it asks for.
pub record Frame : Type 0 where
  pub tx : ℕ
  pub rx : ℕ
  pub cmd_i : ℕ
  pub rx_i : ℕ

unfoldable pub frame_at : List ℕ → ℕ → Frame
frame_at blk p =
    let tx = get_or blk p 0 % 64 in
    record { tx = tx; rx = get_or blk (p + 1) 0 % 64; cmd_i = p + 2; rx_i = p + 2 + tx }

-- Bytes stored in the block from `i` on.
unfoldable pub store : List ℕ → ℕ → List ℕ → List ℕ
store blk i [] = blk
store blk i (v ∷ vs) = store (set blk i v) (i + 1) vs

unfoldable pub fetch : List ℕ → ℕ → ℕ → List ℕ
fetch blk i zero = []
fetch blk i (suc n) = get_or blk i 0 ∷ fetch blk (i + 1) n

-- The accessory block that the two address bytes name.
abbrev pub address_of : List ℕ → ℕ → ℕ
address_of blk cmd_i = (0x100 * get_or blk (cmd_i + 1) 0 + get_or blk (cmd_i + 2) 0) / 32

-- `blk[p + 1] | RX_NO_DEVICE`
unfoldable pub no_device : Joybus → Joybus
no_device j =
    let v = get_or j.blk (j.p + 1) 0 in record j { blk = set j.blk (j.p + 1) (v % 0x80 + 0x80) }

-- The furthest index that a command reads from the block, one past it.
unfoldable pub reads_to : ℕ → Frame → ℕ
reads_to cmd f =
    if cmd == 0x02 then f.cmd_i + 3 else if cmd == 0x03 then f.cmd_i + 35 else f.cmd_i + 1

unfoldable pub answer_info : Joybus → Frame → Joybus
answer_info j f =
    let pak = if has_pak j.paks j.chan then 0x01 else 0x00 in
    if leb 3 f.rx then record j { blk = store j.blk f.rx_i (0x05 ∷ 0x00 ∷ pak ∷ []) } else j

unfoldable pub answer_read : Environment → Joybus → Frame → Joybus
answer_read e j f =
    let (ret, data_, s) = read_block e j.paks j.chan (address_of j.blk f.cmd_i) false in
    let j₁ = record j { paks = s } in
    if ret == 0 && leb 33 f.rx
    then record j₁ { blk = store j.blk f.rx_i (data_ ++ data_crc data_ ∷ []) }
    else no_device j₁

unfoldable pub answer_write : Environment → Joybus → Frame → Joybus
answer_write e j f =
    let data_ = fetch j.blk (f.cmd_i + 3) 32 in
    let (ret, s) = write_block e j.paks j.chan (address_of j.blk f.cmd_i) (some data_) in
    let j₁ = record j { paks = s } in
    if ret == 0 && leb 1 f.rx
    then record j₁ { blk = set j.blk f.rx_i (data_crc data_) }
    else no_device j₁

unfoldable pub answer : Environment → Joybus → Frame → ℕ → Joybus
answer e j f cmd =
    if cmd == 0x00
    then answer_info j f
    else if cmd == 0x02
    then answer_read e j f
    else if cmd == 0x03
    then answer_write e j f
    else if cmd == 0x01
    then record j { blk = store j.blk f.rx_i (replicate f.rx 0) }
    else j

-- What the loop does at a position below 63: go on, or stop.
pub data Step : Type 0 where
  next : Joybus → Step
  stop : Joybus → Step
  outside : Joybus → Step

abbrev skip : Joybus → ℕ → Joybus
skip j channels = record j { p = j.p + 1; chan = j.chan + channels }

abbrev past : Joybus → Frame → Joybus
past j f = record j { p = f.rx_i + f.rx; chan = j.chan + 1 }

unfoldable pub step_frame : Environment → Joybus → Frame → Step
step_frame e j f =
    let cmd = get_or j.blk f.cmd_i 0 in
    if ltb 64 (f.rx_i + f.rx)
    then stop j
    else if ltb 3 j.chan
    then next (past j f)
    else if ltb (length j.blk) (reads_to cmd f)
    then outside j
    else next (past (answer e j f cmd) f)

unfoldable pub step : Environment → Joybus → Step
step e j =
    let t = get_or j.blk j.p 0 in
    if t == 0xFE
    then stop j
    else if t == 0xFF
    then next (skip j 0)
    else if t == 0x00
    then next (skip j 1)
    else if t == 0xFD
    then next (skip j 0)
    else step_frame e j (frame_at j.blk j.p)

-- `while (p < 63)`, with the number of steps that may still be taken; see Joybus/Frames.
unfoldable pub run : Environment → ℕ → Joybus → Option Run
run e zero j = if ltb j.p 63 then none else some (finished j)
run e (suc n) j =
    if ltb j.p 63
    then elim (step e j) [
      | next j₁ ↦ run e n j₁
      | stop j₁ ↦ some (finished j₁)
      | outside j₁ ↦ some (overrun j₁)
    ]
    else some (finished j)

-- The block after the run is what is stored back into the guest's memory.
abbrev pub run_joybus : Environment → Paks → List ℕ → Option Run
run_joybus e s block = run e 63 (record { blk = block; paks = s; chan = 0; p = 0 })
