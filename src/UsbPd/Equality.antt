-- ===== src/UsbPd/Equality.antt =====
-- sw/fw/src/systems/usb_pd.rs: the test whether the memory holds the wanted data.
use powersupply.Base.{ℕ, ◌≡◌, refl, true, List, [], ◌∷◌, arith, ==_iff}
use powersupply.Stusb4500.{Sector}
use powersupply.UsbPd.{bytes_eq, sectors_eq}

bytes_eq_sound : (a b : List ℕ) → bytes_eq a b ≡ true → a ≡ b
bytes_eq_sound [] [] h = refl
bytes_eq_sound [] (y ∷ ys) h = cc
bytes_eq_sound (x ∷ xs) [] h = cc
bytes_eq_sound (x ∷ xs) (y ∷ ys) h = ground (arith, ==_iff x y, bytes_eq_sound xs ys)

pub sectors_eq_sound : (a b : List Sector) → sectors_eq a b ≡ true → a ≡ b
sectors_eq_sound [] [] h = refl
sectors_eq_sound [] (y ∷ ys) h = cc
sectors_eq_sound (x ∷ xs) [] h = cc
sectors_eq_sound (x ∷ xs) (y ∷ ys) h = ground (arith, bytes_eq_sound x y, sectors_eq_sound xs ys)

bytes_eq_self : (a : List ℕ) → bytes_eq a a ≡ true
bytes_eq_self [] = refl
bytes_eq_self (x ∷ xs) = ground (arith, ==_iff x x, bytes_eq_self xs)

pub sectors_eq_self : (a : List Sector) → sectors_eq a a ≡ true
sectors_eq_self [] = refl
sectors_eq_self (x ∷ xs) = ground (arith, bytes_eq_self x, sectors_eq_self xs)
