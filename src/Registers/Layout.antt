-- ===== src/Registers/Layout.antt =====
-- The registers of both drivers (sw/fw/src/drivers/stusb4500/ll.rs and tps55289/ll.rs) are laid out
-- soundly, and every access to one is a single transaction.
use powersupply.Base.{
  ℕ, ◌+◌, ◌*◌, ◌^◌, ◌≤◌, ◌<◌, ◌≡◌, Bool, true, ◌&&◌, ◌||◌, List, [], ◌∷◌, leb, arith, ◌⊎◌, returns,
  length, Result,
}
use text.Mathlib.Text.{◌==◌ as str_eq}
use powersupply.Transactions.{stusb4500_max, tps55289_max, write_register_lem}
use powersupply.Registers.{
  FieldType, bool, u8, u16, u32, Field, Register, le, Stusb4500, pd_command_ctrl, stusb4500,
  Tps55289, vref, tps55289, width, size_bytes, Known, of_stusb4500, of_tps55289, layout, device_of,
  write_known,
}

-- So many bits are a value of the type.
abbrev pub FitsType : FieldType → ℕ → Type 0
FitsType bool n = n ≡ 1
FitsType u8 n = n ≤ 8
FitsType u16 n = n ≤ 16
FitsType u32 n = n ≤ 32

abbrev pub FieldsFit : ℕ → List Field → Type 0
FieldsFit size [] = Unit
FieldsFit size (f ∷ fs) =
    ((f.first < f.last) × (f.last ≤ size) × FitsType f.ty (width f)) × FieldsFit size fs

-- The field stands below all of these, but for those that are the whole register.
abbrev pub below : Field → List Field → Bool
below f [] = true
below f (g ∷ gs) = (leb f.last g.first || str_eq g.name "value") && below f gs

abbrev pub in_order : List Field → Bool
in_order [] = true
in_order (f ∷ fs) = below f fs && in_order fs

abbrev Sound : ℕ → Register → Type 0
Sound max r =
    (r.size_bits ≡ size_bytes r * 8)
    × (size_bytes r < max)
    × (r.address + size_bytes r ≤ 2 ^ 8)
    × ((size_bytes r ≡ 1) ⊎ (r.byte_order ≡ le))
    × FieldsFit r.size_bits r.fields
    × (in_order r.fields ≡ true)

stusb4500-Sound : (r : Stusb4500) → Sound stusb4500_max (stusb4500 r)
unfolding stusb4500
stusb4500-Sound pd_command_ctrl = ground arith
stusb4500-Sound _ = ground arith

tps55289-Sound : (r : Tps55289) → Sound tps55289_max (tps55289 r)
unfolding tps55289
tps55289-Sound vref = ground arith
tps55289-Sound _ = ground arith

-- The bytes of the registers do not meet.
abbrev pub Apart : Register → Register → Type 0
Apart r s = (r.address + size_bytes r ≤ s.address) ⊎ (s.address + size_bytes s ≤ r.address)

abbrev OnOneChip : Known → Known → Type 0
OnOneChip r s = device_of r ≡ device_of s

-- A write of a register of either chip, of as many bytes as it has, never panics: it is one
-- transaction with the register's address and the bytes.
pub write_known_lem :
    {S E : Type 0} (write : ℕ → List ℕ → S → Result (Unit {0}) E × S) (r : Known) (bytes : List ℕ)
    (s : S)
    → length bytes ≡ size_bytes (layout r)
    → write_known write r bytes s ≡ returns (write (device_of r) ((layout r).address ∷ bytes) s)
unfolding write_known layout
write_known_lem write (of_stusb4500 r) bytes s e =
    (write_register_lem write 8 0x28 (stusb4500 r).address bytes s).0
      (omega (arith, (stusb4500-Sound r).1))
write_known_lem write (of_tps55289 r) bytes s e =
    (write_register_lem write 2 0x75 (tps55289 r).address bytes s).0
      (omega (arith, (tps55289-Sound r).1))
