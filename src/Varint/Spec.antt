-- ===== src/Varint/Spec.antt =====
-- Encodings as lists of bytes, and lists of bytes in memory.
use lwpb.Common.{
  ℕ, zero, suc, ◌+◌, ◌/◌, ◌%◌, ◌^◌, ◌≤◌, ◌<◌, ◌≡◌, refl, ap, ◌∙◌, ◌⊎◌, inl, arith, List, [], ◌∷◌,
  ◌++◌, ltb, if◌then◌else◌, ltb-true, ltb-false, length,
}
use lwpb.Buf.{Memory, put}

-- The groups of seven bits of `v`, lowest first, for `v` below 128 ^ (k + 1).
unfoldable pub groups : ℕ → ℕ → List ℕ
groups zero v = v ∷ []
groups (suc k) v =
    let rest = groups k (v / 128) in if ltb v 128 then v ∷ [] else (v % 128 + 128) ∷ rest

pub groups_last : (k v : ℕ) → v < 128 → groups k v ≡ v ∷ []
unfolding groups
groups_last zero v h = refl
groups_last (suc k) v h = rw (ltb-true v 128 h)

pub groups_more : (k v : ℕ) → 128 ≤ v → groups (suc k) v ≡ (v % 128 + 128) ∷ groups k (v / 128)
unfolding groups
groups_more k v h = rw (ltb-false v 128 h)

-- The encoding of a 64-bit number.
unfoldable pub varint : ℕ → List ℕ
varint v = groups 9 v

pub length-groups : (k v : ℕ) → (1 ≤ length (groups k v)) × (length (groups k v) ≤ k + 1)
unfolding groups
length-groups zero v = omega arith
length-groups (suc k) v = ground (arith, length-groups k (v / 128))

pub length-varint : (v : ℕ) → (1 ≤ length (varint v)) × (length (varint v) ≤ 10)
unfolding varint
length-varint v = length-groups 9 v

-- The memory after the bytes have been stored one after the other from `p` on.
unfoldable pub store : Memory → ℕ → List ℕ → Memory
store m p [] = m
store m p (b ∷ bs) = store (put m p b) (p + 1) bs

-- A number below 128 ^ (j + 1) takes j + 1 bytes at most.
length-groups-le : (k j v : ℕ) → v < 128 ^ suc j → length (groups k v) ≤ j + 1
unfolding groups
length-groups-le zero j v h = omega arith
length-groups-le (suc k) zero v h = rw (ltb-true v 128 (omega arith)) (omega arith)
length-groups-le (suc k) (suc j) v h = ground (arith, length-groups-le k j (v / 128) (omega arith))

pub length-varint-le : (v : ℕ) → v < 2 ^ 35 → length (varint v) ≤ 5
unfolding varint
length-varint-le v h = length-groups-le 9 4 v (omega arith)

-- The bytes stand in memory from `p` on.
abbrev pub Holds : Memory → ℕ → List ℕ → Type 0
Holds m p [] = Unit {0}
Holds m p (b ∷ bs) = (m.byte p ≡ b) × Holds m (p + 1) bs

pub size-store : (m : Memory) (p : ℕ) (bs : List ℕ) → (store m p bs).size ≡ m.size
unfolding store put
size-store m p [] = refl
size-store m p (b ∷ bs) = size-store (put m p b) (p + 1) bs

pub store-append :
    (m : Memory) (p : ℕ) (xs ys : List ℕ)
    → store m p (xs ++ ys) ≡ store (store m p xs) (p + length xs) ys
unfolding store
store-append m p [] ys = ap (λ (t : ℕ). store m t ys) (omega arith)
store-append m p (x ∷ xs) ys =
    store-append (put m p x) (p + 1) xs ys
    ∙ ap (λ (t : ℕ). store (store (put m p x) (p + 1) xs) t ys) (omega arith)

-- What a store leaves alone.
pub store_outside :
    (m : Memory) (p : ℕ) (bs : List ℕ) (q : ℕ)
    → (q < p) ⊎ (p + length bs ≤ q)
    → (store m p bs).byte q ≡ m.byte q
unfolding store put
store_outside m p [] q h = refl
store_outside m p (b ∷ bs) q h = ground (arith, store_outside (put m p b) (p + 1) bs q)

pub Holds-store : (m : Memory) (p : ℕ) (bs : List ℕ) → Holds (store m p bs) p bs
unfolding store
Holds-store m p [] = tt
Holds-store m p (b ∷ bs) = (
  store_outside (put m p b) (p + 1) bs p (inl (omega arith)) ∙ unfold put in ground arith,
  Holds-store (put m p b) (p + 1) bs,
)

pub Holds-append :
    (m : Memory) (p : ℕ) (xs ys : List ℕ)
    → Holds m p (xs ++ ys)
    → Holds m p xs × Holds m (p + length xs) ys
Holds-append m p [] ys h = (tt, let e : p + 0 ≡ p = omega arith in rw e h)
Holds-append m p (x ∷ xs) ys h =
    let (l, r) = Holds-append m (p + 1) xs ys h.1 in
    let e : p + suc (length xs) ≡ p + 1 + length xs = omega arith in ((h.0, l), rw e r)

pub append-Holds :
    (m : Memory) (p : ℕ) (xs ys : List ℕ)
    → Holds m p xs
    → Holds m (p + length xs) ys
    → Holds m p (xs ++ ys)
append-Holds m p [] ys h k = let e : p + 0 ≡ p = omega arith in rw e at k
append-Holds m p (x ∷ xs) ys h k =
    let e : p + suc (length xs) ≡ p + 1 + length xs = omega arith in
    (h.0, append-Holds m (p + 1) xs ys h.1 (rw e at k))
