-- ===== src/Copy.antt =====
-- The C library's functions on blocks of bytes that the encoders use: `memcpy`, `memmove`,
-- `strlen` (LWPB_MEMCPY, LWPB_MEMMOVE and LWPB_STRLEN of include/lwpb/arch/sys.h).
use lwpb.Common.{
  ℕ, zero, suc, ◌+◌, ◌≡◌, ap, refl, Bool, true, false, ◌||◌, List, [], ◌∷◌, ◌==◌, leb,
  if◌then◌else◌, length, take, ◌≤◌, leb-true, inr, arith,
}
use lwpb.Types.{Run, ret, fault, ◌>>=◌, ◌>>◌, require, Ptr, inside, outside}
use lwpb.Buf.{Memory}
use lwpb.Fixed.{write_all}
use lwpb.Fixed.Laws.{write_all_lem}
use lwpb.Varint.Spec.{store, store_outside, Holds}

-- The bytes of the memory from `p` on.
unfoldable pub load : Memory → ℕ → ℕ → List ℕ
load m p zero = []
load m p (suc n) = m.byte p ∷ load m (p + 1) n

-- `n` bytes from a pointer, all of which must lie in its object.
unfoldable pub fetch : Memory → Ptr → ℕ → Run (List ℕ)
fetch m (inside p) n = if leb (p + n) m.size then ret (load m p n) else fault
fetch m (outside bs) n = if leb n (length bs) then ret (take n bs) else fault

-- `memmove`: the bytes are read before any is written.
unfoldable pub mem_move : Memory → ℕ → Ptr → ℕ → Run Memory
mem_move m dest src n = fetch m src n >>= λ bs. write_all m dest bs

abbrev pub apart : ℕ → Ptr → ℕ → Bool
apart dest (inside p) n = leb (dest + n) p || leb (p + n) dest
apart dest (outside bs) n = true

-- `memcpy`, which is undefined on overlapping blocks.
unfoldable pub mem_copy : Memory → ℕ → Ptr → ℕ → Run Memory
mem_copy m dest src n = require (apart dest src n) >> mem_move m dest src n

-- `strlen` on an object that holds the listed bytes: they must hold a 0.
unfoldable pub str_len : List ℕ → Run ℕ
str_len [] = fault
str_len (c ∷ cs) = let rest = str_len cs >>= λ n. ret (n + 1) in if c == 0 then ret 0 else rest

pub length-load : (m : Memory) (p n : ℕ) → length (load m p n) ≡ n
unfolding load
length-load m p zero = refl
length-load m p (suc n) = ap suc (length-load m (p + 1) n)

pub load-Holds : (m : Memory) (p : ℕ) (bs : List ℕ) → Holds m p bs → load m p (length bs) ≡ bs
unfolding load
load-Holds m p [] h = refl
load-Holds m p (b ∷ bs) h = rw (h.0, load-Holds m (p + 1) bs h.1)

pub length-take : (n : ℕ) (bs : List ℕ) → n ≤ length bs → length (take n bs) ≡ n
length-take zero bs h = refl
length-take (suc n) [] h = absurd (omega arith)
length-take (suc n) (b ∷ bs) h = ap suc (length-take n bs (omega arith))

-- Copying from another object stores its first `n` bytes.
mem_copy_outside :
    (m : Memory) (dest : ℕ) (bs : List ℕ) (n : ℕ)
    → n ≤ length bs
    → dest + n ≤ m.size
    → mem_copy m dest (outside bs) n ≡ ret (store m dest (take n bs))
unfolding mem_copy mem_move fetch
mem_copy_outside m dest bs n h fits =
    rw (leb-true n (length bs) h)
      (write_all_lem m dest (take n bs) (omega (arith, length-take n bs h)))

mem_move_outside :
    (m : Memory) (dest : ℕ) (bs : List ℕ) (n : ℕ)
    → n ≤ length bs
    → dest + n ≤ m.size
    → mem_move m dest (outside bs) n ≡ ret (store m dest (take n bs))
unfolding mem_move fetch
mem_move_outside m dest bs n h fits =
    rw (leb-true n (length bs) h)
      (write_all_lem m dest (take n bs) (omega (arith, length-take n bs h)))

-- Moving within the memory, whether or not the blocks overlap.
pub mem_move_inside :
    (m : Memory) (dest p n : ℕ)
    → p + n ≤ m.size
    → dest + n ≤ m.size
    → mem_move m dest (inside p) n ≡ ret (store m dest (load m p n))
unfolding mem_move fetch
mem_move_inside m dest p n h fits =
    rw (leb-true (p + n) m.size h)
      (write_all_lem m dest (load m p n) (omega (arith, length-load m p n)))

-- Either function, from another object.
pub copy_outside :
    (overlapping : Bool) (m : Memory) (dest : ℕ) (bs : List ℕ) (n : ℕ)
    → n ≤ length bs
    → dest + n ≤ m.size
    → (if overlapping then mem_move m dest (outside bs) n else mem_copy m dest (outside bs) n)
      ≡ ret (store m dest (take n bs))
copy_outside true m dest bs n h fits = mem_move_outside m dest bs n h fits
copy_outside false m dest bs n h fits = mem_copy_outside m dest bs n h fits

-- A store below the block leaves the block as it is.
pub load-store :
    (m : Memory) (p : ℕ) (bs : List ℕ) (q n : ℕ)
    → p + length bs ≤ q
    → load (store m p bs) q n ≡ load m q n
unfolding load
load-store m p bs q zero h = refl
load-store m p bs q (suc n) h =
    rw (store_outside m p bs q (inr h), load-store m p bs (q + 1) n (omega arith))
