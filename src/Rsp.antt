-- ===== src/Rsp.antt =====
-- librecomp/src/rsp.cpp: writes to the status register of the RSP (apply_sp_status_write). A word is
-- given by its bits, which is all that the code looks at.
pub mod Status
use n64modern_runtime.Base.{ℕ, zero, suc, ◌+◌, ◌*◌, Bool, true, false, not, ◌==◌, if◌then◌else◌}

-- `word |= 1u << k` and `word &= ~(1u << k)`.
abbrev pub assign : (ℕ → Bool) → ℕ → Bool → ℕ → Bool
assign word k b i = if i == k then b else word i

abbrev pub same : Bool → Bool → Bool
same true b = b
same false b = not b

-- `apply_pair`, by the numbers of the bits; `value` is the word that is written.
unfoldable pub apply_pair :
    (value : ℕ → Bool) → (clear_bit set_bit read_bit : ℕ) → (status : ℕ → Bool) → ℕ → Bool
apply_pair value clear_bit set_bit read_bit status =
    if same (value clear_bit) (value set_bit)
    then status
    else if value set_bit
    then assign status read_bit true
    else assign status read_bit false

-- The first `n` rounds of the loop over the signals.
unfoldable pub apply_signals : (value : ℕ → Bool) → (n : ℕ) → (status : ℕ → Bool) → ℕ → Bool
apply_signals value zero status = status
apply_signals value (suc n) status =
    apply_pair value (9 + n * 2) (10 + n * 2) (7 + n) (apply_signals value n status)

unfoldable pub apply_sp_status_write : (status value : ℕ → Bool) → ℕ → Bool
apply_sp_status_write status value =
    let halt = apply_pair value 0 1 0 status in
    let broke = if value 2 then assign halt 1 false else halt in
    let single_step = apply_pair value 5 6 5 broke in
    let interrupt_on_break = apply_pair value 7 8 6 single_step in
    apply_signals value 8 interrupt_on_break
