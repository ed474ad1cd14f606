-- ===== src/Common/Lists.antt =====
-- Lists measured and indexed by native numbers: a C array is a list, and a write out of bounds,
-- which the theorems rule out, changes nothing.
use Prim.Native.Nat.{ℕ, zero, suc, ◌+◌, ◌-◌}
use mathlib.Core.Path.{◌≡◌, refl, ap}
use mathlib.Core.Bool.{◌&&◌}
use mathlib.Core.List.{List, [], ◌∷◌, ◌++◌}
use native.Mathlib.Omega.{arith}
use list_talk.Common.Tests.{ltb, ◌==◌, if◌then◌else◌}

module _ {ℓ} {A : Type ℓ} where
  abbrev pub length : List A → ℕ
  length [] = 0
  length (x ∷ xs) = suc (length xs)

  abbrev pub get_or : List A → ℕ → A → A
  get_or [] i d = d
  get_or (x ∷ xs) zero d = x
  get_or (x ∷ xs) (suc i) d = get_or xs i d

  abbrev pub set : List A → ℕ → A → List A
  set [] i v = []
  set (x ∷ xs) zero v = v ∷ xs
  set (x ∷ xs) (suc i) v = x ∷ set xs i v

  abbrev pub take : ℕ → List A → List A
  take zero xs = []
  take (suc n) [] = []
  take (suc n) (x ∷ xs) = x ∷ take n xs

  abbrev pub drop : ℕ → List A → List A
  drop zero xs = xs
  drop (suc n) [] = []
  drop (suc n) (x ∷ xs) = drop n xs

  abbrev pub replicate : ℕ → A → List A
  replicate zero a = []
  replicate (suc n) a = a ∷ replicate n a

  abbrev pub All {κ} : (A → Type κ) → List A → Type κ
  All P [] = Unit {κ}
  All P (x ∷ xs) = P x × All P xs

module _ {ℓ} {A : Type ℓ} where
  pub length-append : (xs ys : List A) → length (xs ++ ys) ≡ length xs + length ys
  length-append [] ys = omega arith
  length-append (x ∷ xs) ys = omega (arith, length-append xs ys)

  pub length-set : (xs : List A) (i : ℕ) (v : A) → length (set xs i v) ≡ length xs
  length-set [] i v = refl
  length-set (x ∷ xs) zero v = refl
  length-set (x ∷ xs) (suc i) v = ap suc (length-set xs i v)

  pub length-replicate : (n : ℕ) (a : A) → length (replicate n a) ≡ n
  length-replicate zero a = refl
  length-replicate (suc n) a = ap suc (length-replicate n a)

  pub get_or-set :
      (xs : List A) (i j : ℕ) (v d : A)
      → get_or (set xs i v) j d ≡ (if (i == j) && ltb i (length xs) then v else get_or xs j d)
  get_or-set [] i j v d = ground arith
  get_or-set (x ∷ xs) zero zero v d = ground arith
  get_or-set (x ∷ xs) zero (suc j) v d = ground arith
  get_or-set (x ∷ xs) (suc i) zero v d = ground arith
  get_or-set (x ∷ xs) (suc i) (suc j) v d = ground (arith, get_or-set xs i j v d)

  pub get_or-replicate : (n i : ℕ) (a : A) → get_or (replicate n a) i a ≡ a
  get_or-replicate zero i a = refl
  get_or-replicate (suc n) zero a = refl
  get_or-replicate (suc n) (suc i) a = get_or-replicate n i a

  pub All-append {κ} : (P : A → Type κ) (xs ys : List A) → All P xs → All P ys → All P (xs ++ ys)
  All-append P [] ys hx hy = hy
  All-append P (x ∷ xs) ys hx hy = (hx.0, All-append P xs ys hx.1 hy)

-- `n` numbers from `s` on, then `rest`.
abbrev pub run : ℕ → ℕ → List ℕ → List ℕ
run s zero rest = rest
run s (suc n) rest = s ∷ run (s + 1) n rest

pub get_or-run :
    (s n : ℕ) (rest : List ℕ) (d : ℕ)
    → get_or (run s n rest) d 0 ≡ (if ltb d n then s + d else get_or rest (d - n) 0)
get_or-run s zero rest d = let e : d - 0 ≡ d = omega arith in rw e (ground arith)
get_or-run s (suc n) rest zero = ground arith
get_or-run s (suc n) rest (suc d) =
    let e : suc d - suc n ≡ d - n = omega arith in
    rw (get_or-run (s + 1) n rest d, e) (ground arith)
