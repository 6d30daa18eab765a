-- ===== src/Utils.antt =====
-- src/lwpb/utils/utils.c, the replacements of the C library's functions for platforms without them,
-- on blocks of one data object.
use lwpb.Common.{
  ℕ, zero, suc, ◌+◌, ◌-◌, ◌%◌, ◌^◌, ◌≤◌, ◌<◌, ◌≡◌, ◌≢◌, refl, ap, sym, ◌++◌, ltb-true, ◌∙◌, arith,
  Option, none, some, List, [], ◌∷◌, ltb, ◌==◌, if◌then◌else◌, length, ltb-false, All, ==_false,
}
use lwpb.Types.{inside, Run, ret, fault, stuck, ◌>>=◌}
use lwpb.Buf.{Memory, read, read_lem, read_past, write, write_lem, put}
use lwpb.Varint.Spec.{store, Holds}
use lwpb.Copy.{load, load-store, mem_move, mem_move_inside}

-- `__lwpb_memcpy` and the upward loop of `__lwpb_memmove`: byte after byte.
unfoldable pub copy_up : ℕ → Memory → ℕ → ℕ → Run Memory
copy_up zero m d s = ret m
copy_up (suc n) m d s = read m s >>= λ x. write m d x >>= λ m'. copy_up n m' (d + 1) (s + 1)

-- The downward loop. `i` is a `size_t`, so that `i >= 0` always holds, and `i--` wraps around.
unfoldable pub copy_down : ℕ → Memory → ℕ → ℕ → ℕ → Run Memory
copy_down zero m d s i = stuck
copy_down (suc fuel) m d s i = read m (s + i) >>= λ x.
    write m (d + i) x >>= λ m'. copy_down fuel m' d s ((i + 2 ^ 64 - 1) % 2 ^ 64)

unfoldable pub utils_memcpy : Memory → ℕ → ℕ → ℕ → Run Memory
utils_memcpy m d s n = copy_up n m d s

-- `__lwpb_memmove`, with fuel for the downward loop.
unfoldable pub utils_memmove : ℕ → Memory → ℕ → ℕ → ℕ → Run Memory
utils_memmove fuel m d s n =
    if d == s
    then ret m
    else (if ltb d s then copy_up n m d s else copy_down fuel m d s ((n + 2 ^ 64 - 1) % 2 ^ 64))

-- `__lwpb_memcmp`: `none` for 0, or the two bytes of the difference that is returned.
unfoldable pub utils_memcmp : ℕ → Memory → ℕ → ℕ → Run (Option (ℕ × ℕ))
utils_memcmp zero m p q = ret none
utils_memcmp (suc n) m p q = read m p >>= λ x. read m q >>= λ y.
    let rest = utils_memcmp n m (p + 1) (q + 1) in if x == y then rest else ret (some (x, y))

-- `__lwpb_strlen`, whose loop ends at the end of the object at the latest.
unfoldable pub strlen_loop : ℕ → Memory → ℕ → ℕ → Run ℕ
strlen_loop zero m s len = fault
strlen_loop (suc left) m s len = read m s >>= λ x.
    let rest = strlen_loop left m (s + 1) (len + 1) in if x == 0 then ret len else rest

unfoldable pub utils_strlen : Memory → ℕ → Run ℕ
utils_strlen m s = strlen_loop (m.size + 1 - s) m s 0

-- Upwards, a block is copied as it was if it does not start inside the target.
pub copy_up_lem :
    (n : ℕ) (m : Memory) (d s : ℕ)
    → d ≤ s
    → s + n ≤ m.size
    → copy_up n m d s ≡ ret (store m d (load m s n))
unfolding copy_up load store
copy_up_lem zero m d s h fits = refl
copy_up_lem (suc n) m d s h fits =
    rw (read_lem m s (omega arith), write_lem m d (m.byte s) (omega arith))
      (copy_up_lem n (put m d (m.byte s)) (d + 1) (s + 1) (omega arith) (unfold put in omega arith)
        ∙ ap (λ (bs : List ℕ). ret (store (put m d (m.byte s)) (d + 1) bs))
            (load-store m d (m.byte s ∷ []) (s + 1) n (omega arith)))

past :
    (fuel : ℕ) (m : Memory) (d s : ℕ)
    → 1 ≤ fuel
    → m.size ≤ s + (2 ^ 64 - 1)
    → copy_down fuel m d s (2 ^ 64 - 1) ≡ fault
unfolding copy_down
past zero m d s h k = absurd (omega arith)
past (suc fuel) m d s h k = rw (read_past m (s + (2 ^ 64 - 1)) k)

strlen_from :
    (bs : List ℕ) (left : ℕ) (m : Memory) (s len : ℕ)
    → All (λ x. x ≢ 0) bs
    → Holds m s (bs ++ (0 ∷ []))
    → s + length bs < m.size
    → length bs < left
    → strlen_loop left m s len ≡ ret (len + length bs)
unfolding strlen_loop
strlen_from bs zero m s len nonzero at fits more = absurd (omega arith)
strlen_from [] (suc left) m s len nonzero at fits more =
    let z : len + 0 ≡ len = omega arith in rw (read_lem m s (omega arith), at.0, z)
strlen_from (b ∷ bs) (suc left) m s len nonzero at fits more =
    let e : len + suc (length bs) ≡ len + 1 + length bs = omega arith in
    rw (read_lem m s (omega arith), at.0, ==_false b 0 nonzero.0, e)
      (strlen_from bs left m (s + 1) (len + 1) nonzero.1 at.1 (omega arith) (omega arith))

-- The downward loop reaches a position out of bounds.
copy_down_fault :
    (n fuel : ℕ) (m : Memory) (d s : ℕ)
    → s < d
    → d + n < m.size
    → m.size < 2 ^ 64
    → n + 1 < fuel
    → copy_down fuel m d s n ≡ fault
unfolding copy_down
copy_down_fault n zero m d s h fits small more = absurd (omega arith)
copy_down_fault zero (suc fuel) m d s h fits small more =
    let wrap : (0 + 2 ^ 64 - 1) % 2 ^ 64 ≡ 2 ^ 64 - 1 = omega arith in
    rw (read_lem m (s + 0) (omega arith), write_lem m (d + 0) (m.byte (s + 0)) (omega arith), wrap)
      (past fuel (put m (d + 0) (m.byte (s + 0))) d s (omega arith) (unfold put in omega arith))
copy_down_fault (suc n) (suc fuel) m d s h fits small more =
    let wrap : (suc n + 2 ^ 64 - 1) % 2 ^ 64 ≡ n = omega arith in
    rw
      (
        read_lem m (s + suc n) (omega arith),
        write_lem m (d + suc n) (m.byte (s + suc n)) (omega arith),
        wrap,
      )
      (copy_down_fault n fuel (put m (d + suc n) (m.byte (s + suc n))) d s h
        (unfold put in omega arith) (unfold put in small) (omega arith))

-- `__lwpb_memmove` to a higher address, of at least one byte and with the target inside an object
-- below 2^64 bytes, runs out of bounds, however much fuel above the number of bytes its loop is
-- given.
pub utils_memmove-fault :
    (m : Memory) (d s n fuel : ℕ)
    → s < d
    → 1 ≤ n
    → d + n ≤ m.size
    → m.size < 2 ^ 64
    → n < fuel
    → utils_memmove fuel m d s n ≡ fault
unfolding utils_memmove
utils_memmove-fault m d s (suc n) fuel h pos fits small more =
    let wrap : (suc n + 2 ^ 64 - 1) % 2 ^ 64 ≡ n = omega arith in
    rw (==_false d s (omega arith), ltb-false d s (omega arith), wrap)
      (copy_down_fault n fuel m d s h (omega arith) small (omega arith))
utils_memmove-fault m d s zero fuel h pos fits small more = absurd (omega arith)

-- `__lwpb_memmove` to a lower address of a block inside its object does what `memmove` does, also
-- where the blocks overlap.
pub utils_memmove-mem_move :
    (m : Memory) (d s n fuel : ℕ)
    → d < s
    → s + n ≤ m.size
    → utils_memmove fuel m d s n ≡ mem_move m d (inside s) n
unfolding utils_memmove
utils_memmove-mem_move m d s n fuel h fits =
    rw (==_false d s (omega arith), ltb-true d s h)
      (copy_up_lem n m d s (omega arith) fits ∙ sym (mem_move_inside m d s n fits (omega arith)))

-- `__lwpb_strlen` on bytes other than 0 with a 0 behind them, all inside the object, returns the
-- number of these bytes.
pub utils_strlen_lem :
    (m : Memory) (s : ℕ) (bs : List ℕ)
    → All (λ x. x ≢ 0) bs
    → Holds m s (bs ++ (0 ∷ []))
    → s + length bs < m.size
    → utils_strlen m s ≡ ret (length bs)
unfolding utils_strlen
utils_strlen_lem m s bs nonzero at fits =
    let z : 0 + length bs ≡ length bs = omega arith in
    rw z at (strlen_from bs (m.size + 1 - s) m s 0 nonzero at fits (omega arith))
