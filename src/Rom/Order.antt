-- ===== src/Rom/Order.antt =====
-- The order of a ROM's bytes does not matter, and one of the answers is never given.
use n64modern_runtime.Base.{
  ℕ, zero, suc, ◌+◌, ◌-◌, ◌*◌, ◌/◌, ◌%◌, ◌≡◌, refl, sym, ap, ◌∙◌, ◌≢◌, Bool, true, false, not,
  Option, none, some, List, [], ◌∷◌, ◌++◌, arith, if_cases, length, replicate,
}
use mathlib.Core.List.{append-nil}
use mathlib.Core.Option.{some-injective}
use n64modern_runtime.Rom.{
  RomValidationError, GameEntry, check_rom_start, byteswap_data, resize_to_words, undo_swapping,
  same_bytes, with_byte, first_bytes, skip_bytes, is_name, other_rom, wrong_hash, why_wrong, answer,
  check_contents, read_rom, select_rom, not_yet,
}

-- A whole number of words.
abbrev pub AreWords : List ℕ → Type 0
AreWords [] = Unit
AreWords (a ∷ []) = ⊥
AreWords (a ∷ b ∷ []) = ⊥
AreWords (a ∷ b ∷ c ∷ []) = ⊥
AreWords (a ∷ b ∷ c ∷ d ∷ l) = AreWords l

abbrev pub start_bytes : List ℕ → List ℕ
start_bytes l = 0x80 ∷ 0x37 ∷ 0x12 ∷ 0x40 ∷ l

-- The two kinds of swapping that a ROM can have.
pub data Swap : Type 0 where
  swap2 : Swap
  swap4 : Swap

abbrev pub index_xor : Swap → ℕ
index_xor swap2 = 1
index_xor swap4 = 3

pub byteswap_data-byteswap_data :
    (x : Swap) (l : List ℕ)
    → AreWords l
    → byteswap_data (index_xor x) (byteswap_data (index_xor x) l) ≡ l
unfolding byteswap_data
byteswap_data-byteswap_data x [] h = refl
byteswap_data-byteswap_data x (a ∷ []) h = elim h [ ]
byteswap_data-byteswap_data x (a ∷ b ∷ []) h = elim h [ ]
byteswap_data-byteswap_data x (a ∷ b ∷ c ∷ []) h = elim h [ ]
byteswap_data-byteswap_data swap2 (a ∷ b ∷ c ∷ d ∷ l) h =
    ap (λ z. a ∷ b ∷ c ∷ d ∷ z) (byteswap_data-byteswap_data swap2 l h)
byteswap_data-byteswap_data swap4 (a ∷ b ∷ c ∷ d ∷ l) h =
    ap (λ z. a ∷ b ∷ c ∷ d ∷ z) (byteswap_data-byteswap_data swap4 l h)

length_words : (l : List ℕ) → AreWords l → length l % 4 ≡ 0
length_words [] h = refl
length_words (a ∷ []) h = elim h [ ]
length_words (a ∷ b ∷ []) h = elim h [ ]
length_words (a ∷ b ∷ c ∷ []) h = elim h [ ]
length_words (a ∷ b ∷ c ∷ d ∷ l) h = omega (arith, length_words l h)

no_padding : (n : ℕ) → n % 4 ≡ 0 → (n + 3) / 4 * 4 - n ≡ 0
no_padding n h = omega (arith, h)

resize_to_words-words : (l : List ℕ) → AreWords l → resize_to_words l ≡ l
unfolding resize_to_words
resize_to_words-words l h =
    ap (λ (n : ℕ). l ++ replicate n 0) (no_padding (length l) (length_words l h)) ∙ append-nil l

byteswap_data-AreWords :
    (x : Swap) (l : List ℕ) → AreWords l → AreWords (byteswap_data (index_xor x) l)
unfolding byteswap_data
byteswap_data-AreWords x [] h = tt
byteswap_data-AreWords x (a ∷ []) h = elim h [ ]
byteswap_data-AreWords x (a ∷ b ∷ []) h = elim h [ ]
byteswap_data-AreWords x (a ∷ b ∷ c ∷ []) h = elim h [ ]
byteswap_data-AreWords x (a ∷ b ∷ c ∷ d ∷ l) h = byteswap_data-AreWords x l h

-- The swapped bytes are recognised, and the swapping is undone.
undo_swapping-byteswap_data :
    (x : Swap) (l : List ℕ)
    → AreWords l
    → undo_swapping
        (check_rom_start (byteswap_data (index_xor x) (start_bytes l)))
        (byteswap_data (index_xor x) (start_bytes l))
      ≡ some (start_bytes l)
unfolding undo_swapping check_rom_start byteswap_data
undo_swapping-byteswap_data swap2 l h =
    ap (λ z. some (start_bytes z)) (byteswap_data-byteswap_data swap2 l h)
undo_swapping-byteswap_data swap4 l h =
    ap (λ z. some (start_bytes z)) (byteswap_data-byteswap_data swap4 l h)

module _ (check_hash : List ℕ → (expected : ℕ) → Bool) where
  read_rom-words :
      (g : GameEntry) (a b c d : ℕ) (l : List ℕ)
      → AreWords l
      → read_rom check_hash g (a ∷ b ∷ c ∷ d ∷ l)
        ≡ check_contents check_hash g
            (undo_swapping (check_rom_start (a ∷ b ∷ c ∷ d ∷ l)) (a ∷ b ∷ c ∷ d ∷ l))
  unfolding read_rom
  read_rom-words g a b c d l h =
      ap (λ z. check_contents check_hash g (undo_swapping (check_rom_start z) z))
        (resize_to_words-words (a ∷ b ∷ c ∷ d ∷ l) h)

  read_swapped :
      (g : GameEntry) (x : Swap) (l : List ℕ)
      → AreWords l
      → read_rom check_hash g (byteswap_data (index_xor x) (start_bytes l))
        ≡ check_contents check_hash g (some (start_bytes l))
  unfolding byteswap_data
  read_swapped g x l h =
      read_rom-words g _ _ _ _ (byteswap_data (index_xor x) l) (byteswap_data-AreWords x l h)
      ∙ ap (check_contents check_hash g) (undo_swapping-byteswap_data x l h)

  read_native :
      (g : GameEntry) (l : List ℕ)
      → AreWords l
      → read_rom check_hash g (start_bytes l) ≡ check_contents check_hash g (some (start_bytes l))
  unfolding check_rom_start undo_swapping
  read_native g l h = read_rom-words g 0x80 0x37 0x12 0x40 l h

  -- A file that begins with the four bytes of a ROM and is a whole number of words gets the same
  -- answer, and the same stored file, when the bytes of its halfwords or of its words are reversed.
  pub select_rom-byteswap_data :
      (game : Option GameEntry) (x : Swap) (l : List ℕ)
      → AreWords l
      → select_rom check_hash game (byteswap_data (index_xor x) (start_bytes l))
        ≡ select_rom check_hash game (start_bytes l)
  unfolding select_rom
  select_rom-byteswap_data none x l h = refl
  select_rom-byteswap_data (some g) x l h = read_swapped g x l h ∙ sym (read_native g l h)

-- The answer that the code keeps for games that are not supported yet.
abbrev pub IsNotYet : Option (RomValidationError × Option (List ℕ)) → Type 0
IsNotYet none = ⊥
IsNotYet (some (e, w)) = e ≡ not_yet

-- A view of a name of another length is not the name.
same_bytes-length : (l k : List ℕ) → same_bytes l k ≡ true → length l ≡ length k
same_bytes-length [] [] h = refl
same_bytes-length [] (b ∷ k) h = absurd (ground (arith, h))
same_bytes-length (a ∷ l) [] h = absurd (ground (arith, h))
same_bytes-length (a ∷ l) (b ∷ k) h = ap suc (same_bytes-length l k (ground (arith, h)))

with_byte-length :
    (n b : ℕ) (o : Option (List ℕ)) (k : List ℕ)
    → ((j : List ℕ) → o ≡ some j → length j ≡ n)
    → with_byte b o ≡ some k
    → length k ≡ suc n
with_byte-length n b none k f h = absurd (ground (arith, h))
with_byte-length n b (some j) k f h =
    ap length (sym (some-injective (b ∷ j) k h)) ∙ ap suc (f j refl)

first_bytes-length : (n : ℕ) (l k : List ℕ) → first_bytes n l ≡ some k → length k ≡ n
first_bytes-length zero l k h = ap length (sym (some-injective [] k h))
first_bytes-length (suc n) [] k h = absurd (ground (arith, h))
first_bytes-length (suc n) (b ∷ l) k h =
    with_byte-length n b (first_bytes n l) k (first_bytes-length n l) h

other_rom_lem :
    (on : Bool) (short : Option Bool) → other_rom on short ≡ some not_yet → short ≡ some true
other_rom_lem false short h = absurd (cc)
other_rom_lem true none h = absurd (cc)
other_rom_lem true (some true) h = refl
other_rom_lem true (some false) h = absurd (cc)

wrong_hash_lem :
    (g : GameEntry) (long short : Option Bool)
    → wrong_hash g long short ≡ some not_yet
    → (long ≡ some false) × (short ≡ some true)
wrong_hash_lem g none short h = absurd (cc)
wrong_hash_lem g (some true) short h = absurd (cc)
wrong_hash_lem g (some false) short h = (refl, other_rom_lem g.is_enabled short h)

view_length :
    (n : ℕ) (header name : List ℕ) (o : Option (List ℕ))
    → first_bytes n header ≡ o
    → is_name o name ≡ some true
    → length name ≡ n
view_length n header name none e h = absurd (cc)
view_length n header name (some view) e h =
    sym (same_bytes-length view name (some-injective (same_bytes view name) true h))
    ∙ first_bytes-length n header view e

-- It needs a name of 19 bytes in the header, which the test before has found.
why_wrong_lem : (g : GameEntry) (l : List ℕ) → why_wrong g l ≢ some not_yet
unfolding why_wrong
why_wrong_lem g l h =
    let header = skip_bytes 0x20 l in
    let (long, short) = wrong_hash_lem g _ _ h in
    let same : length g.internal_name ≡ 19 = view_length 19 header g.internal_name _ refl short in
    let long' : is_name (first_bytes 19 header) g.internal_name ≡ some false =
      ap (λ (n : ℕ). is_name (first_bytes n header) g.internal_name) (sym same) ∙ long in
    true_false (some-injective true false (sym short ∙ long'))
  where
    true_false : true ≢ false
    true_false e = absurd (cc)

module _ (check_hash : List ℕ → (expected : ℕ) → Bool) where
  answer_lem :
      (o : Option RomValidationError) → o ≢ some not_yet → ¬ (IsNotYet (answer check_hash o))
  answer_lem none h k = k
  answer_lem (some e) h k = h (ap some k)

  check_contents_lem :
      (g : GameEntry) (o : Option (List ℕ)) → ¬ (IsNotYet (check_contents check_hash g o))
  unfolding check_contents
  check_contents_lem g none = λ k. absurd (cc)
  check_contents_lem g (some l) =
      if_cases (λ z. ¬ (IsNotYet z)) (not (check_hash l g.rom_hash))
        (λ _. answer_lem (why_wrong g l) (why_wrong_lem g l)) (λ _ k. absurd (cc))

  -- Choosing a ROM never answers that the game is not supported yet, whatever the file holds.
  pub select_rom-IsNotYet :
      (game : Option GameEntry) (file : List ℕ) → ¬ (IsNotYet (select_rom check_hash game file))
  unfolding select_rom read_rom
  select_rom-IsNotYet none file = λ k. absurd (cc)
  select_rom-IsNotYet (some g) [] = λ k. absurd (cc)
  select_rom-IsNotYet (some g) (b ∷ file) = check_contents_lem g _
