-- ===== src/Socket/Names.antt =====
-- The search for a service and a method by name in `parse_request_field_handler`
-- (src/lwpb/rpc/socket_helper.c).
use lwpb.Common.{
  ℕ, suc, ◌+◌, ◌≤◌, ◌≡◌, ◌≢◌, refl, ap, arith, Bool, true, false, Option, none, some, List, [], ◌∷◌,
  ◌==◌, length, take, All, get_elem?, if◌then◌else◌, ltb-true, Bool-cases, inl, inr,
}
use lwpb.Types.{ret, inside}
use lwpb.Buf.{Memory}
use lwpb.Copy.{str_len}
use lwpb.Varint.Spec.{Holds}
use lwpb.Socket.{
  MethodDesc, ServiceDesc, Services, str_n_equal, is_named, find_service, find_method,
}

-- The characters of a C string, and whether its object has the 0 that ends them.
abbrev pub chars : List ℕ → List ℕ
chars [] = []
chars (c ∷ cs) = if c == 0 then [] else c ∷ chars cs

abbrev pub has_end : List ℕ → Bool
has_end [] = false
has_end (c ∷ cs) = if c == 0 then true else has_end cs

abbrev pub same_bytes : List ℕ → List ℕ → Bool
same_bytes [] [] = true
same_bytes [] (y ∷ ys) = false
same_bytes (x ∷ xs) [] = false
same_bytes (x ∷ xs) (y ∷ ys) = if x == y then same_bytes xs ys else false

pub str_len_lem : (obj : List ℕ) → has_end obj ≡ true → str_len obj ≡ ret (length (chars obj))
unfolding str_len
str_len_lem [] h = cc
str_len_lem (c ∷ cs) h = elim (Bool-cases (c == 0)) [
  | inl last ↦ rw last refl
  | inr other ↦
      let e : length (chars cs) + 1 ≡ suc (length (chars cs)) = omega arith in
      rw (other, str_len_lem cs (rw other at h)) (rw e refl)
]

-- The characters stand at the head of the object.
pub take-chars : (obj : List ℕ) → take (length (chars obj)) obj ≡ chars obj
take-chars [] = refl
take-chars (c ∷ cs) = elim (Bool-cases (c == 0)) [
  | inl last ↦ rw last refl
  | inr other ↦ rw other (ap (λ (l : List ℕ). c ∷ l) (take-chars cs))
]

pub length-chars : (obj : List ℕ) → length (chars obj) ≤ length obj
length-chars [] = omega arith
length-chars (c ∷ cs) = ground (arith, length-chars cs)

str_n_equal_lem :
    (m : Memory) (p : ℕ) (xs obj : List ℕ)
    → Holds m p xs
    → p + length xs ≤ m.size
    → length xs ≡ length (chars obj)
    → str_n_equal m p obj (length xs) ≡ ret (same_bytes xs (chars obj))
unfolding str_n_equal
str_n_equal_lem m p [] [] at inner same = refl
str_n_equal_lem m p [] (b ∷ bs) at inner same = elim (Bool-cases (b == 0)) [
  | inl last ↦ rw last refl
  | inr other ↦ absurd (let h = rw other at same in omega (arith, h))
]
str_n_equal_lem m p (x ∷ xs) [] at inner same = absurd (omega arith)
str_n_equal_lem m p (x ∷ xs) (b ∷ bs) at inner same = elim (Bool-cases (b == 0)) [
  | inl last ↦ absurd (let h = rw last at same in omega (arith, h))
  | inr other ↦
      let h = rw other at same in
      let rest = str_n_equal_lem m (p + 1) xs bs at.1 (omega arith) (omega (arith, h)) in
      rw (ltb-true p m.size (omega arith), at.0, other, rest)
        (elim (Bool-cases (x == b)) [ inl e ↦ rw e refl | inr e ↦ rw e refl ])
]

same_bytes-length : (xs ys : List ℕ) → length xs ≢ length ys → same_bytes xs ys ≡ false
same_bytes-length [] [] h = absurd (h refl)
same_bytes-length [] (y ∷ ys) h = refl
same_bytes-length (x ∷ xs) [] h = refl
same_bytes-length (x ∷ xs) (y ∷ ys) h =
    let rest = same_bytes-length xs ys (λ e. h (ap suc e)) in
    elim (Bool-cases (x == y)) [ inl e ↦ rw (e, rest) refl | inr e ↦ rw e refl ]

-- The first method and the first listed service with the name.
abbrev pub first_method : List ℕ → List MethodDesc → Option MethodDesc
first_method name [] = none
first_method name (method ∷ rest) =
    if same_bytes name (chars method.name) then some method else first_method name rest

abbrev pub first_service : Services → List ℕ → List ℕ → Option ServiceDesc
first_service services name [] = none
first_service services name (s ∷ rest) = elim (get_elem? services s) [
  | none ↦ none
  | some service ↦
      if same_bytes name (chars service.name)
      then some service
      else first_service services name rest
]

-- Names end, and the listed services are in the table.
abbrev pub AreNamed : List MethodDesc → Type 0
AreNamed methods = All (λ (method : MethodDesc). has_end method.name ≡ true) methods

abbrev pub IsListed : Services → ℕ → Type 0
IsListed services s =
    (service : ServiceDesc) × (get_elem? services s ≡ some service)
    × (has_end service.name ≡ true)
    × AreNamed service.methods

module _ (m : Memory) (p : ℕ) (xs : List ℕ) (at : Holds m p xs)
    (inner : p + length xs ≤ m.size) where
  is_named_lem :
      (obj : List ℕ)
      → has_end obj ≡ true
      → is_named m (inside p, length xs) obj ≡ ret (same_bytes xs (chars obj))
  unfolding is_named
  is_named_lem obj ends = elim (Bool-cases (length xs == length (chars obj))) [
    | inl same ↦
        rw (str_len_lem obj ends, same) (str_n_equal_lem m p xs obj at inner (ground (arith, same)))
    | inr other ↦
        rw (str_len_lem obj ends, other, same_bytes-length xs (chars obj) (ground (arith, other)))
          refl
  ]

  pub find_method_lem :
      (methods : List MethodDesc)
      → AreNamed methods
      → find_method m (inside p, length xs) methods ≡ ret (first_method xs methods)
  unfolding find_method
  find_method_lem [] named = refl
  find_method_lem (method ∷ rest) (ends, named) =
      elim (Bool-cases (same_bytes xs (chars method.name))) [
        | inl same ↦ rw (is_named_lem method.name ends, same) refl
        | inr other ↦ rw (is_named_lem method.name ends, other) (find_method_lem rest named)
      ]

  pub find_service_lem :
      (services : Services) (list : List ℕ)
      → All (IsListed services) list
      → find_service services m (inside p, length xs) list ≡ ret (first_service services xs list)
  unfolding find_service
  find_service_lem services [] listed = refl
  find_service_lem services (s ∷ rest) ((service, has, ends, _), listed) =
      elim (Bool-cases (same_bytes xs (chars service.name))) [
        | inl same ↦
            rw (has, is_named_lem service.name ends, same) (rw (first_service, has, same) refl)
        | inr other ↦
            rw (has, is_named_lem service.name ends, other)
              (rw (first_service, has, other) (find_service_lem services rest listed))
      ]

-- The methods of a service that was found have names that end.
pub first_service-AreNamed :
    (services : Services) (name list : List ℕ) (service : ServiceDesc)
    → All (IsListed services) list
    → first_service services name list ≡ some service
    → AreNamed service.methods
first_service-AreNamed services name [] service listed found = cc
first_service-AreNamed services name (s ∷ rest) service ((d, has, ends, named), listed) found =
    let found' = rw (first_service, has) at found in
    elim (Bool-cases (same_bytes name (chars d.name))) [
      | inl same ↦ let e : d ≡ service = cc (rw same at found') in rw (← e) named
      | inr other ↦ first_service-AreNamed services name rest service listed (rw other at found')
    ]
