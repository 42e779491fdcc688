-- ===== src/Rom.antt =====
-- librecomp/src/recomp.cpp: the choice of a ROM file, whatever the order of its bytes.
pub mod Order
use n64modern_runtime.Base.{
  ℕ, zero, suc, ◌+◌, ◌-◌, ◌*◌, ◌/◌, bit_xor, Bool, true, false, not, ◌&&◌, Option, none, some, List,
  [], ◌∷◌, ◌++◌, ◌==◌, if◌then◌else◌, length, replicate,
}
use mathlib.Core.Option

pub data ByteswapType : Type 0 where
  not_byteswapped : ByteswapType
  byteswapped4 : ByteswapType
  byteswapped2 : ByteswapType
  invalid : ByteswapType

pub data RomValidationError : Type 0 where
  good : RomValidationError
  failed_to_open : RomValidationError
  not_a_rom : RomValidationError
  incorrect_rom : RomValidationError
  not_yet : RomValidationError
  incorrect_version : RomValidationError
  other_error : RomValidationError

-- Of `GameEntry`.
pub record GameEntry : Type 0 where
  pub rom_hash : ℕ
  pub internal_name : List ℕ
  pub is_enabled : Bool

-- `first_rom_bytes`, reordered.
abbrev pub matches : (a b c d e f g h : ℕ) → Bool
matches a b c d e f g h = (a == e) && ((b == f) && ((c == g) && (d == h)))

unfoldable pub check_rom_start : List ℕ → ByteswapType
check_rom_start (a ∷ b ∷ c ∷ d ∷ l) =
    if matches a b c d 0x80 0x37 0x12 0x40
    then not_byteswapped
    else if matches a b c d 0x40 0x12 0x37 0x80
    then byteswapped4
    else if matches a b c d 0x37 0x80 0x40 0x12
    then byteswapped2
    else invalid
check_rom_start l = invalid

-- The byte of a word with a position.
abbrev pub byte_of : (b0 b1 b2 b3 i : ℕ) → ℕ
byte_of b0 b1 b2 b3 i = if i == 0 then b0 else if i == 1 then b1 else if i == 2 then b2 else b3

-- The byte with the position i of a word goes to the position i ^ index_xor; the buffer is a whole
-- number of words.
unfoldable pub byteswap_data : (index_xor : ℕ) → List ℕ → List ℕ
byteswap_data x (b0 ∷ b1 ∷ b2 ∷ b3 ∷ l) =
    byte_of b0 b1 b2 b3 (bit_xor 0 x)
    ∷ byte_of b0 b1 b2 b3 (bit_xor 1 x)
    ∷ byte_of b0 b1 b2 b3 (bit_xor 2 x)
    ∷ byte_of b0 b1 b2 b3 (bit_xor 3 x)
    ∷ byteswap_data x l
byteswap_data x l = l

-- `resize((size + 3) & ~3)`
unfoldable pub resize_to_words : List ℕ → List ℕ
resize_to_words l = l ++ replicate ((length l + 3) / 4 * 4 - length l) 0

unfoldable pub undo_swapping : ByteswapType → List ℕ → Option (List ℕ)
unfolding byteswap_data
undo_swapping invalid l = none
undo_swapping byteswapped2 l = some (byteswap_data 1 l)
undo_swapping byteswapped4 l = some (byteswap_data 3 l)
undo_swapping not_byteswapped l = some l

abbrev pub same_bytes : List ℕ → List ℕ → Bool
same_bytes [] [] = true
same_bytes [] (b ∷ k) = false
same_bytes (a ∷ l) [] = false
same_bytes (a ∷ l) (b ∷ k) = (a == b) && same_bytes l k

abbrev pub with_byte : ℕ → Option (List ℕ) → Option (List ℕ)
with_byte b none = none
with_byte b (some k) = some (b ∷ k)

-- A view of `count` bytes; one that goes past the end of the buffer is undefined.
abbrev pub first_bytes : (count : ℕ) → List ℕ → Option (List ℕ)
first_bytes zero l = some []
first_bytes (suc n) [] = none
first_bytes (suc n) (b ∷ l) = with_byte b (first_bytes n l)

abbrev pub skip_bytes : (count : ℕ) → List ℕ → List ℕ
skip_bytes zero l = l
skip_bytes (suc n) [] = []
skip_bytes (suc n) (b ∷ l) = skip_bytes n l

abbrev pub is_name : Option (List ℕ) → List ℕ → Option Bool
is_name none name = none
is_name (some view) name = some (same_bytes view name)

abbrev pub other_rom :
    (is_enabled : Bool) → (is_short_name : Option Bool) → Option RomValidationError
other_rom false b = some incorrect_rom
other_rom true none = none
other_rom true (some b) = some (if b then not_yet else incorrect_rom)

abbrev pub wrong_hash :
    GameEntry → (is_long_name is_short_name : Option Bool) → Option RomValidationError
wrong_hash g none short = none
wrong_hash g (some long) short =
    if long then some incorrect_version else other_rom g.is_enabled short

-- The name in the header of a ROM whose hash is not the game's.
unfoldable pub why_wrong : GameEntry → List ℕ → Option RomValidationError
why_wrong g l =
    let header = skip_bytes 0x20 l in
    wrong_hash g (is_name (first_bytes (length g.internal_name) header) g.internal_name)
      (is_name (first_bytes 19 header) g.internal_name)

-- The answer, and what is written to the game's file; `none` stands for a read past the end of the
-- buffer. The hash is of a library.
module _ (check_hash : List ℕ → (expected : ℕ) → Bool) where
  abbrev pub answer : Option RomValidationError → Option (RomValidationError × Option (List ℕ))
  answer none = none
  answer (some e) = some (e, none)

  unfoldable pub check_contents :
      GameEntry → Option (List ℕ) → Option (RomValidationError × Option (List ℕ))
  unfolding why_wrong
  check_contents g none = some (not_a_rom, none)
  check_contents g (some l) =
      if not (check_hash l g.rom_hash) then answer (why_wrong g l) else some (good, some l)

  unfoldable pub read_rom :
      GameEntry → (file : List ℕ) → Option (RomValidationError × Option (List ℕ))
  unfolding check_contents undo_swapping check_rom_start resize_to_words
  read_rom g [] = some (failed_to_open, none)
  read_rom g (b ∷ file) =
      let l = resize_to_words (b ∷ file) in check_contents g (undo_swapping (check_rom_start l) l)

  unfoldable pub select_rom :
      (game : Option GameEntry) (file : List ℕ) → Option (RomValidationError × Option (List ℕ))
  unfolding read_rom
  select_rom none file = some (other_error, none)
  select_rom (some g) file = read_rom g file
