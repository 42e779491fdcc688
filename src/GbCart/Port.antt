-- ===== src/GbCart/Port.antt =====
-- librecomp/src/gbcart.cpp, `Port`: the Transfer Pak's registers and its window on the cartridge.
use n64modern_runtime.Base.{
  ℕ, ◌+◌, ◌-◌, ◌*◌, ◌%◌, Bool, true, false, not, ◌&&◌, ltb, leb, ◌==◌, if◌then◌else◌,
}
use n64modern_runtime.Base.Bits.{u16}
use n64modern_runtime.GbCart
use n64modern_runtime.GbCart.{Cartridge, no_cartridge}

pub record Port : Type 0 where
  pub configured : Bool
  pub pak_enabled : Bool
  pub cart_enabled : Bool
  pub address_bank : ℕ
  pub reset_state : ℕ
  pub cart : Cartridge

-- `Port{}`
abbrev pub empty_port : Port
empty_port = record {
  configured = false;
  pak_enabled = false;
  cart_enabled = false;
  address_bank = 3;
  reset_state = 0;
  cart = no_cartridge;
}

abbrev pub status_value : Port → ℕ
status_value p =
    (if p.cart_enabled then 0x01 else 0)
    + 4 * (p.reset_state % 4)
    + (if p.configured then 0 else 0x40)
    + (if p.pak_enabled then 0x80 else 0)

-- Reading the status register steps the reset acknowledgement.
unfoldable pub acknowledge : Bool → ℕ → ℕ
acknowledge cart_enabled reset_state =
    if cart_enabled && reset_state == 3
    then 2
    else if not cart_enabled && reset_state == 2
    then 1
    else if not cart_enabled && reset_state == 1
    then 0
    else reset_state

unfoldable pub status : Port → ℕ × Port
status p = (status_value p, record p { reset_state = acknowledge p.cart_enabled p.reset_state })

-- The address on the cartridge's bus; `a` is at least 0x4000.
abbrev pub bus_address : Port → ℕ → ℕ
bus_address p a = u16 (0x4000 * p.address_bank + a - 0x4000)

-- The accessory address `a` after the mask.
unfoldable pub read_masked : Port → ℕ → ℕ × Port
read_masked p a =
    if not p.pak_enabled
    then (0, p)
    else if leb a 0x1FFF
    then (0x84, p)
    else if leb a 0x2FFF
    then (p.address_bank, p)
    else if leb a 0x3FFF
    then status p
    else if not p.cart_enabled
    then (0, p)
    else (GbCart.read p.cart (bus_address p a), p)

unfoldable pub read : Port → ℕ → ℕ × Port
read p accessory_address = read_masked p (accessory_address % 0x8000)

-- A write to 0x0000-0x1FFF: powering the pak up resets its registers.
unfoldable pub write_power : Port → ℕ → Port
write_power p value =
    let on = if value == 0x84 then true else if value == 0xFE then false else p.pak_enabled in
    if not p.pak_enabled && on
    then record p { pak_enabled = on; address_bank = 3; cart_enabled = false; reset_state = 0 }
    else record p { pak_enabled = on }

-- A write to 0x3000-0x3FFF.
unfoldable pub write_status : Port → ℕ → Port
write_status p value =
    let on = not (value % 2 == 0) in
    if not p.cart_enabled && on
    then record p { cart_enabled = on; reset_state = 2 }
    else record p { cart_enabled = on }

unfoldable pub write_masked : Port → ℕ → ℕ → Port
write_masked p a value =
    if leb a 0x1FFF
    then write_power p value
    else if not p.pak_enabled
    then p
    else if leb a 0x2FFF
    then record p { address_bank = if ltb 3 value then 0 else value }
    else if leb a 0x3FFF
    then write_status p value
    else if not p.cart_enabled
    then p
    else record p { cart = GbCart.write p.cart (bus_address p a) value }

unfoldable pub write : Port → ℕ → ℕ → Port
write p accessory_address value = write_masked p (accessory_address % 0x8000) value
