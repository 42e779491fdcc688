-- ===== src/Eeprom/RoundTrip.antt =====
-- What is written to the EEPROM can be read back, through the guest's memory.
use n64modern_runtime.Base.{
  ℕ, ◌+◌, ◌≤◌, ◌≡◌, refl, sym, ap, ◌∙◌, inl, true, some, List, arith, leb, length, All,
}
use n64modern_runtime.Base.Guest.{GuestMemory, load_bytes, store_bytes}
use n64modern_runtime.Save.Bytes.{save_write_ptr_stores}
use n64modern_runtime.Save.Memory.{IsByte, load_bytes-store, length-load_bytes}
use n64modern_runtime.Save.{
  SaveType, eeprom_allowed, Save, read_at, save_write_ptr, save_write, save_read,
}
use n64modern_runtime.Eeprom.{eeprom_byte_offset, os_eeprom_write, os_eeprom_read, returns}

module _ (G : GuestMemory) where
  -- A block inside of the save buffer, written from the guest's memory at `src` and read to `dst`:
  -- both calls succeed, the eight bytes at `dst` are then those that were at `src`, and the save
  -- buffer keeps its size.
  pub os_eeprom_read-write :
      (t : SaveType) (s : Save) (m : G.Mem) (block src dst : ℕ)
      → eeprom_allowed t ≡ true
      → eeprom_byte_offset block + 8 ≤ length s.save_buffer
      → All IsByte (load_bytes G m src 8)
      → (s' : Save) × (m' : G.Mem) × (os_eeprom_write G t s m block src ≡ returns s')
        × (os_eeprom_read G t s' m block dst ≡ returns m')
        × (load_bytes G m' dst 8 ≡ load_bytes G m src 8)
        × (length s'.save_buffer ≡ length s.save_buffer)
  unfolding os_eeprom_write os_eeprom_read save_write save_read
  os_eeprom_read-write t s m block src dst ok h bytes = (
    w.0,
    store_bytes G m dst (read_at w.0.save_buffer o 8),
    rw (ok, inside s h, w.1) refl,
    rw (ok, inside w.0 (omega (arith, w.3, h))) refl,
    ap (λ l. load_bytes G (store_bytes G m dst l) dst 8) same
        ∙ ap (λ n. load_bytes G (store_bytes G m dst bs) dst n) (sym size)
        ∙ load_bytes-store G m dst bs bytes,
    w.3,
  )
    where
      o : ℕ
      o = eeprom_byte_offset block

      bs : List ℕ
      bs = load_bytes G m src 8

      size : length bs ≡ 8
      size = length-load_bytes G m src 8

      w :
          (s' : Save) × (save_write_ptr s bs o ≡ some s')
          × (s'.writes ≡ s.writes + 1)
          × (length s'.save_buffer ≡ length s.save_buffer)
          × (read_at s'.save_buffer o (length bs) ≡ bs)
          × (read_at s'.save_buffer 0 0 ≡ read_at s.save_buffer 0 0)
      w = save_write_ptr_stores s bs o 0 0 (omega (arith, size, h)) (inl (omega arith))

      inside : (x : Save) → o + 8 ≤ length x.save_buffer → leb (o + 8) (length x.save_buffer) ≡ true
      inside x q = ground arith

      same : read_at w.0.save_buffer o 8 ≡ bs
      same = ap (λ n. read_at w.0.save_buffer o n) (sym size) ∙ w.4
