-- ===== src/Base/Lists.antt =====
-- C arrays as lists, measured and indexed by native numbers, under the library's names.
use Prim.Native.Nat.{ℕ, zero, suc, ◌+◌, ◌<◌, ◌≤◌}
use mathlib.Core.Path.{◌≡◌, refl, sym, ap, subst}
use mathlib.Core.Logic.{◌≢◌, ◌⊎◌, inl, inr}
use mathlib.Core.Bool.{Bool, true, false, ◌&&◌}
use mathlib.Core.List.{List, [], ◌∷◌, ◌++◌, map}
use mathlib.Core.Option
use mathlib.Core.Option.{Option, none, some, some-injective}
use native.Mathlib.Omega.{arith}
use shroomio.Base.Tests.{◌==◌, if◌then◌else◌}

module _ {ℓ} {A : Type ℓ} where
  abbrev pub length : List A → ℕ
  length [] = 0
  length (x ∷ xs) = suc (length xs)

  abbrev pub get_elem? : List A → ℕ → Option A
  get_elem? [] i = none
  get_elem? (x ∷ xs) zero = some x
  get_elem? (x ∷ xs) (suc i) = get_elem? xs i

  -- A write out of bounds changes nothing.
  abbrev pub set : List A → ℕ → A → List A
  set [] i v = []
  set (x ∷ xs) zero v = v ∷ xs
  set (x ∷ xs) (suc i) v = x ∷ set xs i v

  abbrev pub replicate : ℕ → A → List A
  replicate zero a = []
  replicate (suc n) a = a ∷ replicate n a

  abbrev pub take : ℕ → List A → List A
  take zero xs = []
  take (suc n) [] = []
  take (suc n) (x ∷ xs) = x ∷ take n xs

  abbrev pub get_or : List A → ℕ → A → A
  get_or [] i d = d
  get_or (x ∷ xs) zero d = x
  get_or (x ∷ xs) (suc i) d = get_or xs i d

  abbrev pub drop : ℕ → List A → List A
  drop zero xs = xs
  drop (suc n) [] = []
  drop (suc n) (x ∷ xs) = drop n xs

  -- The elements that pass a test, in order.
  abbrev pub filter_list : (A → Bool) → List A → List A
  filter_list p [] = []
  filter_list p (x ∷ xs) = let rest = filter_list p xs in if p x then x ∷ rest else rest

  -- The number of elements that pass a test.
  abbrev pub count : (A → Bool) → List A → ℕ
  count p [] = 0
  count p (x ∷ xs) = (if p x then 1 else 0) + count p xs

  -- A predicate of every element.
  abbrev pub All {κ} : (A → Type κ) → List A → Type κ
  All P [] = Unit
  All P (x ∷ xs) = P x × All P xs

module _ {ℓ} {A : Type ℓ} where
  pub length-append : (xs ys : List A) → length (xs ++ ys) ≡ length xs + length ys
  length-append [] ys = omega arith
  length-append (x ∷ xs) ys = omega (arith, length-append xs ys)

  pub length-set : (xs : List A) (i : ℕ) (v : A) → length (set xs i v) ≡ length xs
  length-set [] i v = refl
  length-set (x ∷ xs) zero v = refl
  length-set (x ∷ xs) (suc i) v = ap suc (length-set xs i v)

  pub length-replicate : (n : ℕ) (a : A) → length (replicate n a) ≡ n
  length-replicate zero a = refl
  length-replicate (suc n) a = ap suc (length-replicate n a)

  pub length-take-le : (n : ℕ) (xs : List A) → length (take n xs) ≤ n
  length-take-le zero xs = omega arith
  length-take-le (suc n) [] = omega arith
  length-take-le (suc n) (x ∷ xs) = omega (arith, length-take-le n xs)

  pub get_elem?-set_self :
      (xs : List A) (i : ℕ) (v : A) → i < length xs → get_elem? (set xs i v) i ≡ some v
  get_elem?-set_self [] i v h = elim h [ ]
  get_elem?-set_self (x ∷ xs) zero v h = refl
  get_elem?-set_self (x ∷ xs) (suc i) v h = get_elem?-set_self xs i v (omega arith)

  pub get_elem?-set_ne :
      (xs : List A) (i j : ℕ) (v : A) → i ≢ j → get_elem? (set xs i v) j ≡ get_elem? xs j
  get_elem?-set_ne [] i j v h = refl
  get_elem?-set_ne (x ∷ xs) zero zero v h = absurd (h refl)
  get_elem?-set_ne (x ∷ xs) zero (suc j) v h = refl
  get_elem?-set_ne (x ∷ xs) (suc i) zero v h = refl
  get_elem?-set_ne (x ∷ xs) (suc i) (suc j) v h = get_elem?-set_ne xs i j v (λ e. h (ap suc e))

  -- Replacing an element changes a count by the difference of the two.
  pub count-set :
      (p : A → Bool) (xs : List A) (i : ℕ) (a v : A)
      → get_elem? xs i ≡ some a
      → count p (set xs i v) + (if p a then 1 else 0) ≡ count p xs + (if p v then 1 else 0)
  count-set p [] i a v h = ground arith
  count-set p (x ∷ xs) zero a v h = ground arith
  count-set p (x ∷ xs) (suc i) a v h = omega (arith, count-set p xs i a v h)

  pub count-le-length : (p : A → Bool) (xs : List A) → count p xs ≤ length xs
  count-le-length p [] = omega arith
  count-le-length p (x ∷ xs) = ground (arith, count-le-length p xs)

  pub count-append : (p : A → Bool) (xs ys : List A) → count p (xs ++ ys) ≡ count p xs + count p ys
  count-append p [] ys = omega arith
  count-append p (x ∷ xs) ys = omega (arith, count-append p xs ys)

  pub All-set {κ} :
      (P : A → Type κ) (xs : List A) (i : ℕ) (v : A) → All P xs → P v → All P (set xs i v)
  All-set P [] i v h hv = h
  All-set P (x ∷ xs) zero v h hv = (hv, h.1)
  All-set P (x ∷ xs) (suc i) v h hv = (h.0, All-set P xs i v h.1 hv)

  pub All-get {κ} :
      (P : A → Type κ) (xs : List A) (i : ℕ) (a : A) → All P xs → get_elem? xs i ≡ some a → P a
  All-get P [] i a h e = cc
  All-get P (x ∷ xs) zero a h e = subst P (some-injective x a e) h.0
  All-get P (x ∷ xs) (suc i) a h e = All-get P xs i a h.1 e

  pub All-replicate {κ} : (P : A → Type κ) (n : ℕ) (a : A) → P a → All P (replicate n a)
  All-replicate P zero a h = tt
  All-replicate P (suc n) a h = (h, All-replicate P n a h)

  -- A write where something was read is read back.
  pub get_elem?-set_there :
      (xs : List A) (i : ℕ) (a v : A) → get_elem? xs i ≡ some a → get_elem? (set xs i v) i ≡ some v
  get_elem?-set_there [] i a v h = cc
  get_elem?-set_there (x ∷ xs) zero a v h = refl
  get_elem?-set_there (x ∷ xs) (suc i) a v h = get_elem?-set_there xs i a v h

  pub get_elem?-map {κ} :
      {B : Type κ} (f : A → B) (xs : List A) (i : ℕ) (a : A)
      → get_elem? xs i ≡ some a
      → get_elem? (map f xs) i ≡ some (f a)
  get_elem?-map f [] i a h = absurd (none_ne h)
    where
      none_ne : get_elem? {A = A} [] i ≡ some a → ⊥
      none_ne e = cc
  get_elem?-map f (x ∷ xs) zero a h = ap (λ o. Option.map f o) h
  get_elem?-map f (x ∷ xs) (suc i) a h = get_elem?-map f xs i a h

-- `strcmp` and its kin, as equality of the bytes.
abbrev pub equal_lists : List ℕ → List ℕ → Bool
equal_lists [] [] = true
equal_lists (x ∷ xs) (y ∷ ys) = x == y && equal_lists xs ys
equal_lists _ _ = false

pub equal_lists_refl : (xs : List ℕ) → equal_lists xs xs ≡ true
equal_lists_refl [] = refl
equal_lists_refl (x ∷ xs) = ground (arith, equal_lists_refl xs)

pub equal_lists→eq : (xs ys : List ℕ) → equal_lists xs ys ≡ true → xs ≡ ys
equal_lists→eq [] [] h = refl
equal_lists→eq [] (y ∷ ys) h = cc
equal_lists→eq (x ∷ xs) [] h = cc
equal_lists→eq (x ∷ xs) (y ∷ ys) h = ground (arith, equal_lists→eq xs ys)

module _ {ℓ} {A : Type ℓ} where
  pub length-filter_list : (p : A → Bool) (xs : List A) → length (filter_list p xs) ≡ count p xs
  length-filter_list p [] = refl
  length-filter_list p (x ∷ xs) = ground (arith, length-filter_list p xs)

  pub count-filter_list :
      (p q : A → Bool) (xs : List A)
      → ((x : A) → p x ≡ true → q x ≡ true)
      → count p (filter_list q xs) ≡ count p xs
  count-filter_list p q [] h = refl
  count-filter_list p q (x ∷ xs) h = ground (arith, h x, count-filter_list p q xs h)

  pub take-eq_of_le : (n : ℕ) (xs : List A) → length xs ≤ n → take n xs ≡ xs
  take-eq_of_le zero [] h = refl
  take-eq_of_le zero (x ∷ xs) h = absurd (omega arith)
  take-eq_of_le (suc n) [] h = refl
  take-eq_of_le (suc n) (x ∷ xs) h = ap (λ ys. x ∷ ys) (take-eq_of_le n xs (omega arith))

  -- What is read after a write is what was written, or stood there before.
  pub get_elem?-set_cases :
      (l : List A) (i p : ℕ) (v a : A)
      → get_elem? (set l i v) p ≡ some a
      → ((p ≡ i) × (a ≡ v)) ⊎ (get_elem? l p ≡ some a)
  get_elem?-set_cases [] i p v a h = inr h
  get_elem?-set_cases (x ∷ xs) zero zero v a h = inl (refl, sym (some-injective v a h))
  get_elem?-set_cases (x ∷ xs) zero (suc p) v a h = inr h
  get_elem?-set_cases (x ∷ xs) (suc i) zero v a h = inr h
  get_elem?-set_cases (x ∷ xs) (suc i) (suc p) v a h = elim (get_elem?-set_cases xs i p v a h) [
    | inl (e, is) ↦ inl (ap suc e, is)
    | inr there ↦ inr there
  ]

  pub get_or-get_elem? : (l : List A) (i : ℕ) (d a : A) → get_elem? l i ≡ some a → get_or l i d ≡ a
  get_or-get_elem? [] i d a h = cc
  get_or-get_elem? (x ∷ xs) zero d a h = some-injective x a h
  get_or-get_elem? (x ∷ xs) (suc i) d a h = get_or-get_elem? xs i d a h

  -- There is an element at every index below the length.
  pub get_elem?-some : (l : List A) (i : ℕ) → i < length l → (a : A) × (get_elem? l i ≡ some a)
  get_elem?-some [] i h = absurd (omega arith)
  get_elem?-some (x ∷ xs) zero h = (x, refl)
  get_elem?-some (x ∷ xs) (suc i) h = get_elem?-some xs i (omega arith)

  pub All-append {κ} : (P : A → Type κ) (xs ys : List A) → All P xs → All P ys → All P (xs ++ ys)
  All-append P [] ys h k = k
  All-append P (x ∷ xs) ys h k = (h.0, All-append P xs ys h.1 k)
