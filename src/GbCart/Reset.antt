-- ===== src/GbCart/Reset.antt =====
-- The Transfer Pak's power and reset registers.
use n64modern_runtime.Base.{
  ℕ, zero, suc, ◌-◌, ◌/◌, ◌%◌, ◌≤◌, ◌≡◌, refl, ap, ◌∙◌, ◌≢◌, inl, inr, Bool, true, false, List, [],
  ◌∷◌, arith, leb, ◌==◌, ==_apart, Bool-cases, All,
}
use n64modern_runtime.GbCart.{Cartridge}
use n64modern_runtime.GbCart.Port
use n64modern_runtime.GbCart.Port.{
  Port, status_value, acknowledge, status, read_masked, write_power, write_status, write_masked,
}

-- `n` reads of the status register: the values, and the port afterwards.
unfoldable pub read_status : Port → ℕ → List ℕ × Port
read_status p zero = ([], p)
read_status p (suc n) =
    let (v, p₁) = Port.read p 0x3000 in let (vs, p₂) = read_status p₁ n in (v ∷ vs, p₂)

-- The reset was detected (0x08) and is over (0x04 clear).
abbrev pub IsReady : ℕ → Type 0
IsReady v = (v / 8 % 2 ≡ 1) × (v / 4 % 2 ≡ 0)

status_value-IsReady : (p : Port) → p.reset_state ≡ 2 → IsReady (status_value p)
status_value-IsReady p e = rw (e) (ground arith)

abbrev port : Bool → Bool → Bool → ℕ → ℕ → Cartridge → Port
port configured pak on bank reset c = record {
  configured = configured;
  pak_enabled = pak;
  cart_enabled = on;
  address_bank = bank;
  reset_state = reset;
  cart = c;
}

module _ (configured pak on : Bool) (bank reset : ℕ) (c : Cartridge) where
  port_ready :
      pak ≡ true
      → on ≡ true
      → reset ≡ 2
      → let p = port configured pak on bank reset c in Port.read p 0x3000 ≡ (status_value p, p)
  unfolding Port.read read_masked status acknowledge
  port_ready h₁ h₂ h₃ = rw (h₁, h₂, h₃) refl

  port_starts :
      (v : ℕ)
      → pak ≡ true
      → on ≡ false
      → v % 2 ≡ 1
      → let p' = Port.write (port configured pak on bank reset c) 0x3000 v in
        (p'.pak_enabled ≡ true) × (p'.cart_enabled ≡ true) × (p'.reset_state ≡ 2)
  unfolding Port.write write_masked write_status
  port_starts v h₁ h₂ h₃ = rw (h₁, h₂, h₃) (refl, refl, refl)

  port_off :
      pak ≡ true
      → on ≡ false
      → reset ≤ 2
      → (Port.read (port configured pak on bank reset c) 0x3000).1
        ≡ port configured pak on bank (reset - 1) c
  unfolding Port.read read_masked status acknowledge
  port_off h₁ h₂ h = rw (h₁, h₂) (ap (λ x. port configured true false bank x c) (ground arith))

  port_unpowered :
      (a v : ℕ)
      → pak ≡ false
      → v ≢ 0x84
      → let p = port configured pak on bank reset c in
        (Port.read p a ≡ (0, p)) × (Port.write p a v ≡ p)
  unfolding Port.read read_masked Port.write write_masked write_power
  port_unpowered a v h₁ h = (
    rw (h₁) refl,
    elim (Bool-cases (leb (a % 0x8000) 0x1FFF)) [
      | inl e ↦ elim (Bool-cases (v == 0xFE)) [
        | inl e₁ ↦ rw (h₁, e, ==_apart v 0x84 h, e₁) refl
        | inr e₁ ↦ rw (h₁, e, ==_apart v 0x84 h, e₁) refl
      ]
      | inr e ↦ rw (h₁, e) refl
    ],
  )

read_status-on :
    (p : Port) (n : ℕ)
    → p.pak_enabled ≡ true
    → p.cart_enabled ≡ true
    → p.reset_state ≡ 2
    → let r = read_status p n in All IsReady r.0 × (r.1 ≡ p)
unfolding read_status
read_status-on p zero on c r = (tt, refl)
read_status-on p (suc n) on c r =
    let q = read_status-on p n on c r in
    rw
      (port_ready p.configured p.pak_enabled p.cart_enabled p.address_bank p.reset_state p.cart on c
        r)
      ((status_value-IsReady p r, q.0), q.1)

-- Once the cartridge of a powered pak is switched on by an odd byte at 0x3000, every one of any
-- number of status reads that follow shows the reset detected (0x08) and over (0x04 clear), and
-- the port stays as the write left it.
pub read_status-IsReady :
    (p : Port) (v n : ℕ)
    → p.pak_enabled ≡ true
    → p.cart_enabled ≡ false
    → v % 2 ≡ 1
    → let p' = Port.write p 0x3000 v in let r = read_status p' n in All IsReady r.0 × (r.1 ≡ p')
read_status-IsReady p v n on off h =
    let q =
      port_starts p.configured p.pak_enabled p.cart_enabled p.address_bank p.reset_state p.cart v on
        off h in
    read_status-on (Port.write p 0x3000 v) n q.0 q.1 q.2

-- With the cartridge switched off, every status read takes the reset state one down, to 0: after
-- `n` of them it is `n` lower, and nothing else of the port has changed.
pub read_status_settles :
    (p : Port) (n : ℕ)
    → p.pak_enabled ≡ true
    → p.cart_enabled ≡ false
    → p.reset_state ≤ 2
    → (read_status p n).1 ≡ record p { reset_state = p.reset_state - n }
unfolding read_status
read_status_settles p zero on c r = ap (λ x. record p { reset_state = x }) (omega arith)
read_status_settles p (suc n) on c r =
    rw
      (port_off p.configured p.pak_enabled p.cart_enabled p.address_bank p.reset_state p.cart on c
        r)
      (read_status_settles (record p { reset_state = p.reset_state - 1 }) n on c (omega arith)
        ∙ ap (λ x. record p { reset_state = x }) (omega arith))

-- A pak that is not powered reads 0 at every address and ignores every write of a byte other than
-- 0x84.
pub unpowered_silent :
    (p : Port) (a v : ℕ)
    → p.pak_enabled ≡ false
    → v ≢ 0x84
    → (Port.read p a ≡ (0, p)) × (Port.write p a v ≡ p)
unpowered_silent p a v off h =
    port_unpowered p.configured p.pak_enabled p.cart_enabled p.address_bank p.reset_state p.cart a v
      off h
