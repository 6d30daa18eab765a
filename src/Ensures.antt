-- ===== src/Ensures.antt =====
-- Statements on runs. Partial correctness: what holds of the value that a run returns. Undefined steps and
-- failed assertions satisfy any such statement; a loop that has run out of fuel satisfies none.
use lwpb.Types.{
  Run, ret, fault, abort, stuck, ◌>>=◌, ◌>>◌, assert, require, Err, err_ok, err_cancel,
  err_unknown_field, err_invalid_field, err_end_of_buf, err_mem, err_net_init,
}
use lwpb.Common.{Bool, true, false, Option, none, some, ◌≡◌, refl, if◌then◌else◌}

module _ {A : Type 0} where
  abbrev pub Ensures : (A → Type 0) → Run A → Type 0
  Ensures P (ret a) = P a
  Ensures P fault = Unit {0}
  Ensures P abort = Unit {0}
  Ensures P stuck = ⊥

  pub Ensures-ret : (P : A → Type 0) (r : Run A) (a : A) → r ≡ ret a → Ensures P r → P a
  Ensures-ret P r a e h = rw e at h

  pub Ensures-if :
      (P : A → Type 0) (t : Bool) (r s : Run A)
      → (t ≡ true → Ensures P r)
      → (t ≡ false → Ensures P s)
      → Ensures P (if t then r else s)
  Ensures-if P true r s h k = h refl
  Ensures-if P false r s h k = k refl

  pub Ensures-require :
      (P : A → Type 0) (t : Bool) (r : Run A)
      → (t ≡ true → Ensures P r)
      → Ensures P (require t >> r)
  Ensures-require P true r h = h refl
  Ensures-require P false r h = tt

  pub Ensures-assert :
      (P : A → Type 0) (t : Bool) (r : Run A) → (t ≡ true → Ensures P r) → Ensures P (assert t >> r)
  Ensures-assert P true r h = h refl
  Ensures-assert P false r h = tt

module _ {A B : Type 0} where
  pub Ensures-bind :
      (P : A → Type 0) (Q : B → Type 0) (r : Run A) (f : A → Run B)
      → Ensures P r
      → ((a : A) → r ≡ ret a → P a → Ensures Q (f a))
      → Ensures Q (r >>= f)
  Ensures-bind P Q (ret a) f h k = k a refl h
  Ensures-bind P Q fault f h k = tt
  Ensures-bind P Q abort f h k = tt
  Ensures-bind P Q stuck f h k = absurd h

  pub Ensures-option :
      (P : A → Type 0) (o : Option B) (n : Run A) (f : B → Run A)
      → Ensures P n
      → ((x : B) → Ensures P (f x))
      → Ensures P (elim o [ none ↦ n | some x ↦ f x ])
  Ensures-option P none n f h k = h
  Ensures-option P (some x) n f h k = k x

module _ {A : Type 0} where
  pub Ensures-map :
      (P Q : A → Type 0) (r : Run A) → ((a : A) → P a → Q a) → Ensures P r → Ensures Q r
  Ensures-map P Q (ret a) f h = f a h
  Ensures-map P Q fault f h = tt
  Ensures-map P Q abort f h = tt
  Ensures-map P Q stuck f h = h

-- The shape of a call whose error is passed on.
module _ {A : Type 0} where
  pub Ensures-err :
      (P : A → Type 0) (e : Err) (r : Run A) (f : Err → Run A)
      → (e ≡ err_ok → Ensures P r)
      → ((x : Err) → Ensures P (f x))
      → Ensures P (elim e [ err_ok ↦ r | other ↦ f other ])
  Ensures-err P err_ok r f h k = h refl
  Ensures-err P err_cancel r f h k = k err_cancel
  Ensures-err P err_unknown_field r f h k = k err_unknown_field
  Ensures-err P err_invalid_field r f h k = k err_invalid_field
  Ensures-err P err_end_of_buf r f h k = k err_end_of_buf
  Ensures-err P err_mem r f h k = k err_mem
  Ensures-err P err_net_init r f h k = k err_net_init

-- Total correctness: the run returns a value for which the statement holds.
module _ {A : Type 0} where
  abbrev pub Returns : (A → Type 0) → Run A → Type 0
  Returns P (ret a) = P a
  Returns P _ = ⊥

  pub Returns-err :
      (P : A → Type 0) (e : Err) (r : Run A) (f : Err → Run A)
      → Returns P r
      → ((x : Err) → Returns P (f x))
      → Returns P (elim e [ err_ok ↦ r | other ↦ f other ])
  Returns-err P err_ok r f h k = h
  Returns-err P err_cancel r f h k = k err_cancel
  Returns-err P err_unknown_field r f h k = k err_unknown_field
  Returns-err P err_invalid_field r f h k = k err_invalid_field
  Returns-err P err_end_of_buf r f h k = k err_end_of_buf
  Returns-err P err_mem r f h k = k err_mem
  Returns-err P err_net_init r f h k = k err_net_init

module _ {A B : Type 0} where
  pub Returns-bind :
      (P : A → Type 0) (Q : B → Type 0) (r : Run A) (f : A → Run B)
      → Returns P r
      → ((a : A) → P a → Returns Q (f a))
      → Returns Q (r >>= f)
  Returns-bind P Q (ret a) f h k = k a h
  Returns-bind P Q fault f h k = absurd h
  Returns-bind P Q abort f h k = absurd h
  Returns-bind P Q stuck f h k = absurd h

-- What holds of a value, if the run returns one.
abbrev pub OnReturn : {A : Type 0} → (A → Type 0) → Run A → Type 0
OnReturn P (ret a) = P a
OnReturn P _ = Unit {0}

module _ {A B : Type 0} where
  -- The second run is described by its own statement, for any value of the first.
  pub OnReturn-each :
      (Q : B → Type 0) (r : Run A) (f : A → Run B)
      → ((a : A) → OnReturn Q (f a))
      → OnReturn Q (r >>= f)
  OnReturn-each Q (ret a) f k = k a
  OnReturn-each Q fault f k = tt
  OnReturn-each Q abort f k = tt
  OnReturn-each Q stuck f k = tt

  pub OnReturn-bind :
      (P : A → Type 0) (Q : B → Type 0) (r : Run A) (f : A → Run B)
      → OnReturn P r
      → ((a : A) → P a → OnReturn Q (f a))
      → OnReturn Q (r >>= f)
  OnReturn-bind P Q (ret a) f h k = k a h
  OnReturn-bind P Q fault f h k = tt
  OnReturn-bind P Q abort f h k = tt
  OnReturn-bind P Q stuck f h k = tt

pub OnReturn-if :
    {B : Type 0} (Q : B → Type 0) (t : Bool) (r s : Run B)
    → OnReturn Q r
    → OnReturn Q s
    → OnReturn Q (if t then r else s)
OnReturn-if Q true r s h k = h
OnReturn-if Q false r s h k = k

pub OnReturn-option :
    {A B : Type 0} (Q : B → Type 0) (o : Option A) (n : Run B) (f : A → Run B)
    → (o ≡ none → OnReturn Q n)
    → ((x : A) → o ≡ some x → OnReturn Q (f x))
    → OnReturn Q (elim o [ none ↦ n | some x ↦ f x ])
OnReturn-option Q none n f h k = h refl
OnReturn-option Q (some x) n f h k = k x refl

pub OnReturn-map :
    {A : Type 0} (P Q : A → Type 0) (r : Run A)
    → ((a : A) → P a → Q a)
    → OnReturn P r
    → OnReturn Q r
OnReturn-map P Q (ret a) f h = f a h
OnReturn-map P Q fault f h = tt
OnReturn-map P Q abort f h = tt
OnReturn-map P Q stuck f h = tt
