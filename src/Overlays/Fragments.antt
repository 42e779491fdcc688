-- ===== src/Overlays/Fragments.antt =====
-- librecomp/src/overlays.cpp: which section a fragment is, that the game has put into memory.
pub mod Register
pub mod Alone
use n64modern_runtime.Base.{
  ℕ, zero, suc, ◌+◌, ◌-◌, ◌*◌, ◌/◌, ◌%◌, ◌^◌, bit_xor, Bool, true, not, ◌&&◌, ◌||◌, Option, none,
  some, List, [], ◌∷◌, ltb, leb, ◌==◌, if◌then◌else◌,
}
use n64modern_runtime.Base.Bits.{u8, u32}
use n64modern_runtime.Overlays.{SectionTableEntry, in_range}
use n64modern_runtime.Overlays.Trampolines.{xor3, read_rdram_u32_be}

abbrev pub synthetic_pool_base : ℕ
synthetic_pool_base = 0xC0000000

abbrev pub synthetic_pool_end : ℕ
synthetic_pool_end = 0xE0000000

abbrev pub synthetic_pool_stride : ℕ
synthetic_pool_stride = 0x00100000

abbrev pub synthetic_bucket_count : ℕ
synthetic_bucket_count = (synthetic_pool_end - synthetic_pool_base) / synthetic_pool_stride

abbrev pub is_synthetic_addr : ℕ → Bool
is_synthetic_addr addr = leb synthetic_pool_base addr && ltb addr synthetic_pool_end

abbrev pub synthetic_bucket_idx : ℕ → ℕ
synthetic_bucket_idx addr = (addr - synthetic_pool_base) / synthetic_pool_stride

-- Of 64 bits.
abbrev pub fnv1a_from : (h : ℕ) → List ℕ → ℕ
fnv1a_from h [] = h
fnv1a_from h (b ∷ l) = fnv1a_from (bit_xor h b * 0x100000001B3 % 2 ^ 64) l

unfoldable pub fnv1a_64 : List ℕ → ℕ
fnv1a_64 = fnv1a_from 0xCBF29CE484222325

abbrev pub rdram_size : ℕ
rdram_size = 8 * 1024 * 1024

-- `paddr` of a fragment's address, and a big-endian word at an offset from it.
abbrev pub paddr_of : ℕ → ℕ
paddr_of fragment_ptr = fragment_ptr % 2 ^ 29

-- The first 0x100 bytes of the fragment.
unfoldable pub window : (rdram : ℕ → ℕ) (paddr count : ℕ) → List ℕ
window rdram paddr zero = []
window rdram paddr (suc n) = u8 (rdram (xor3 paddr)) ∷ window rdram (suc paddr) n

module _ (rdram : ℕ → ℕ) (fragment_ptr : ℕ) where
  unfoldable pub header_word : (off : ℕ) → ℕ
  unfolding read_rdram_u32_be
  header_word off = read_rdram_u32_be rdram (paddr_of fragment_ptr + off)

  unfoldable pub has_fragment_magic : Bool
  unfolding header_word
  has_fragment_magic = (header_word 0x08 == 0x46524147) && (header_word 0x0C == 0x4D454E54)

  -- `sizeInRam` of the header; 0 when it is not known.
  unfoldable pub frag_size_in_ram : ℕ
  unfolding header_word has_fragment_magic
  frag_size_in_ram =
      if leb (paddr_of fragment_ptr + 0x20) rdram_size && has_fragment_magic
      then header_word 0x1C
      else 0

  -- The link-time address that the jump at the start of a fragment gives.
  unfoldable pub header_link_vram : Option ℕ
  unfolding header_word has_fragment_magic
  header_link_vram =
      let j_instr = header_word 0x00 in
      let j_target = 2 ^ 31 + j_instr % 2 ^ 26 * 4 in
      if leb (paddr_of fragment_ptr + 0x14) rdram_size
        && (has_fragment_magic && (j_instr / 2 ^ 26 % 64 == 0x02))
      then some (u32 (j_target + (2 ^ 32 - header_word 0x10)))
      else none

unfoldable pub is_candidate : (id : ℕ) → SectionTableEntry → Bool
is_candidate id sec =
    let bucket = sec.ram_addr / 2 ^ 20 % 256 in
    if is_synthetic_addr sec.ram_addr
    then (sec.original_pattern_id == id) && not (sec.content_hash == 0)
    else leb 0x10 bucket && (bucket - 0x10 == id)

-- The indices from `start` on that pass a test, and the first index of a list that does.
unfoldable pub indices : (ℕ → Bool) → (start count : ℕ) → List ℕ
indices passes start zero = []
indices passes start (suc n) =
    let rest = indices passes (suc start) n in if passes start then start ∷ rest else rest

unfoldable pub find_first : (ℕ → Bool) → List ℕ → Option ℕ
find_first passes [] = none
find_first passes (i ∷ l) = let rest = find_first passes l in if passes i then some i else rest

abbrev pub or_else : Option ℕ → Option ℕ → Option ℕ
or_else none o = o
or_else (some i) o = some i

-- `n_fit == 1`
abbrev pub sole : List ℕ → Option ℕ
sole [] = none
sole (i ∷ []) = some i
sole (i ∷ j ∷ l) = none

abbrev pub by_link : (ℕ → ℕ → Bool) → List ℕ → Option ℕ → Option ℕ
by_link matches l none = none
by_link matches l (some link_vram) = find_first (matches link_vram) l

-- `psr_size_filter_on`, which reads the environment, is a parameter.
module _ (sections : ℕ → SectionTableEntry) (num_code_sections : ℕ) (size_filter_on : Bool)
    (rdram : ℕ → ℕ) (id fragment_ptr : ℕ) where
  unfoldable pub extent_ok : ℕ → Bool
  unfolding frag_size_in_ram
  extent_ok i =
      let known = frag_size_in_ram rdram fragment_ptr in
      not size_filter_on || ((known == 0) || leb (sections i).size known)

  unfoldable pub candidates : List ℕ
  unfolding indices is_candidate
  candidates = indices (λ i. is_candidate id (sections i)) 0 num_code_sections

  -- By the content, then by the address in the header.
  unfoldable pub by_content : List ℕ → Option ℕ
  unfolding find_first fnv1a_64 window header_link_vram extent_ok
  by_content l =
      let live_hash = fnv1a_64 (window rdram (paddr_of fragment_ptr) 0x100) in
      let hashed : ℕ → Bool = λ i.
        not ((sections i).content_hash == 0)
        && (((sections i).content_hash == live_hash) && extent_ok i) in
      let around : ℕ → ℕ → Bool =
        λ v i. in_range v (sections i).ram_addr (sections i).size && extent_ok i in
      or_else (find_first hashed l) (by_link around l (header_link_vram rdram fragment_ptr))

  unfoldable pub among_candidates : List ℕ → Option ℕ
  unfolding find_first by_content
  among_candidates l =
      let hashed = find_first (λ i. not ((sections i).content_hash == 0)) l in
      elim l [
        | [] ↦ none
        | i ∷ rest ↦ elim rest [
          | [] ↦ elim hashed [ none ↦ some i | some h ↦ by_content (i ∷ []) ]
          | j ∷ more ↦ by_content (i ∷ j ∷ more)
        ]
      ]

  -- The section that is linked where the header says.
  unfoldable pub by_header : Option ℕ
  unfolding find_first indices header_link_vram extent_ok
  by_header =
      by_link (λ v i. ((sections i).ram_addr == v) && extent_ok i)
        (indices (λ i. true) 0 num_code_sections) (header_link_vram rdram fragment_ptr)

  -- The only candidate that fits, when the fragment's size is known.
  unfoldable pub by_size : List ℕ → Option ℕ
  unfolding frag_size_in_ram
  by_size l =
      let known = frag_size_in_ram rdram fragment_ptr in
      if size_filter_on && not (known == 0) then sole (fitting known l) else none
    where
      fitting : ℕ → List ℕ → List ℕ
      fitting known [] = []
      fitting known (i ∷ l) =
          let rest = fitting known l in if leb (sections i).size known then i ∷ rest else rest

  abbrev pub unless_oversized : Option ℕ → Option ℕ
  unless_oversized none = none
  unless_oversized (some i) = if extent_ok i then some i else none

  -- `found_index` when the fragment is bound; `none` when it is left unregistered.
  unfoldable pub found_index : Option ℕ
  unfolding candidates among_candidates by_header by_size extent_ok
  found_index =
      let l = candidates in
      unless_oversized (or_else (or_else (among_candidates l) by_header) (by_size l))
