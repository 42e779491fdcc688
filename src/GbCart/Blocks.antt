-- ===== src/GbCart/Blocks.antt =====
-- librecomp/src/gbcart.cpp: the four ports, the block calls, and the ring of block accesses. A
-- port number is an `int` that is not negative. What the environment decides is a parameter: the
-- files that can be written, the current thread and the clock of the ring.
use n64modern_runtime.Base.{
  ℕ, zero, suc, ◌+◌, ◌*◌, ◌%◌, Bool, not, ◌&&◌, Option, none, some, List, [], ◌∷◌, ltb, leb, ◌==◌,
  if◌then◌else◌, update, get_or, replicate,
}
use n64modern_runtime.Base.Bits.{u8, u16, u32}
use n64modern_runtime.GbCart.{load, selected_switchable_rom_bank, flush_save}
use n64modern_runtime.GbCart.Port
use n64modern_runtime.GbCart.Port.{Port, empty_port}

abbrev pub port_count : ℕ
port_count = 4

abbrev pub block_size : ℕ
block_size = 32

abbrev pub pfs_err_no_pak : ℕ
pfs_err_no_pak = 1

abbrev pub pfs_err_invalid : ℕ
pfs_err_invalid = 5

pub record RingEntry : Type 0 where
  pub seq : ℕ
  pub tstamp_us : ℕ
  pub thread_ptr : ℕ
  pub block_addr : ℕ
  pub rom_bank : ℕ
  pub port : ℕ
  pub kind : ℕ
  pub addr_bank : ℕ
  pub flags : ℕ
  pub ram_bank : ℕ
  pub mbc1_mode : ℕ
  pub b0 : ℕ

pub record Paks : Type 0 where
  pub ports : ℕ → Port
  pub ring : ℕ → RingEntry
  pub ring_seq : ℕ
  pub files : ℕ → List ℕ

pub record Environment : Type 0 where
  pub writable : ℕ → Bool
  pub this_thread : ℕ
  pub now_us : ℕ

abbrev entry_of : Environment → ℕ → Port → ℕ → ℕ → ℕ → ℕ → RingEntry
entry_of e seq p port kind block b0 = record {
  seq = seq;
  tstamp_us = e.now_us;
  thread_ptr = e.this_thread;
  block_addr = block;
  rom_bank = u16 (selected_switchable_rom_bank p.cart);
  port = u8 port;
  kind = kind;
  addr_bank = p.address_bank;
  flags =
      (if p.pak_enabled then 1 else 0)
      + (if p.cart_enabled then 2 else 0)
      + (if p.cart.ram_enabled then 4 else 0);
  ram_bank = p.cart.ram_bank;
  mbc1_mode = p.cart.mbc1_mode;
  b0 = b0;
}

unfoldable pub ring_append : Environment → Paks → ℕ → ℕ → ℕ → ℕ → Paks
ring_append e s port kind block b0 = record s {
  ring =
      update s.ring (s.ring_seq % 65536) (entry_of e s.ring_seq (s.ports port) port kind block b0);
  ring_seq = u32 (s.ring_seq + 1);
}

unfoldable pub set_cart : Paks → ℕ → ℕ → ℕ → Paks
set_cart s port rom save =
    let (ok, c) = load s.files rom save in
    if leb port_count port
    then s
    else if rom == 0
    then record s { ports = update s.ports port empty_port }
    else record s { ports = update s.ports port (record empty_port { configured = ok; cart = c }) }

abbrev pub has_pak : Paks → ℕ → Bool
has_pak s port = ltb port port_count && (s.ports port).configured

-- `n` reads from the address `a` on.
unfoldable pub read_bytes : Port → ℕ → ℕ → List ℕ × Port
read_bytes p a zero = ([], p)
read_bytes p a (suc n) =
    let (v, p₁) = Port.read p (u16 a) in let (vs, p₂) = read_bytes p₁ (a + 1) n in (v ∷ vs, p₂)

-- The 32 bytes of a block: a control register is read once and its byte repeated.
unfoldable pub read_port : Port → ℕ → List ℕ × Port
read_port p byte_address =
    let (v, p₁) = Port.read p byte_address in
    if leb (byte_address % 0x8000) 0x3FFF
    then (replicate block_size v, p₁)
    else read_bytes p byte_address block_size

-- The result, the bytes of `out`, and the state; `out_null` is `out == nullptr`.
unfoldable pub read_block : Environment → Paks → ℕ → ℕ → Bool → ℕ × List ℕ × Paks
read_block e s port block out_null =
    let (out, p) = read_port (s.ports port) (u16 (block * block_size)) in
    let s₁ = record s { ports = update s.ports port p } in
    if not (has_pak s port)
    then (pfs_err_no_pak, [], s)
    else if out_null
    then (pfs_err_invalid, [], s)
    else (0, out, ring_append e s₁ port 0 block (get_or out 0 0))

unfoldable pub write_bytes : Port → ℕ → List ℕ → Port
write_bytes p a [] = p
write_bytes p a (v ∷ vs) = write_bytes (Port.write p (u16 a) v) (a + 1) vs

abbrev flush_port : Environment → Paks → ℕ → Paks
flush_port e s port =
    let p = s.ports port in
    let (c, files) = flush_save e.writable p.cart s.files in
    record s { ports = update s.ports port (record p { cart = c }); files = files }

-- `data` holds 32 bytes.
unfoldable pub write_block : Environment → Paks → ℕ → ℕ → Option (List ℕ) → ℕ × Paks
write_block e s port block none = (if has_pak s port then pfs_err_invalid else pfs_err_no_pak, s)
write_block e s port block (some data_) =
    let p = write_bytes (s.ports port) (u16 (block * block_size)) data_ in
    let s₁ = record s { ports = update s.ports port p } in
    if has_pak s port
    then (0, flush_port e (ring_append e s₁ port 1 block (get_or data_ 0 0)) port)
    else (pfs_err_no_pak, s)

flush_if : Environment → Paks → ℕ → Paks
flush_if e s port = if (s.ports port).configured then flush_port e s port else s

unfoldable pub flush_all : Environment → Paks → Paks
unfolding flush_if
flush_all e s = flush_if e (flush_if e (flush_if e (flush_if e s 0) 1) 2) 3
