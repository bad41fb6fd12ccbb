-- ===== src/Common/Lists.antt =====
-- Lists measured and indexed by native numbers, under the library's names.
use Prim.Native.Nat.{ℕ, zero, suc, ◌+◌, ◌-◌, ◌≤◌}
use mathlib.Core.Path.{◌≡◌, refl, ap, ◌∙◌, sym}
use mathlib.Core.Bool.{Bool, true, false, ◌&&◌, ◌||◌}
use mathlib.Core.List.{List, [], ◌∷◌, ◌++◌}
use mathlib.Core.Option.{Option, none, some}
use native.Mathlib.Omega.{arith}
use rotation_target.Common.Tests.{leb, if◌then◌else◌}

module _ {ℓ} {A : Type ℓ} where
  abbrev pub length : List A → ℕ
  length [] = 0
  length (x ∷ xs) = suc (length xs)

  abbrev pub get_elem? : List A → ℕ → Option A
  get_elem? [] i = none
  get_elem? (x ∷ xs) zero = some x
  get_elem? (x ∷ xs) (suc i) = get_elem? xs i

  abbrev pub is_empty : List A → Bool
  is_empty [] = true
  is_empty (x ∷ xs) = false

  abbrev pub take : ℕ → List A → List A
  take zero xs = []
  take (suc n) [] = []
  take (suc n) (x ∷ xs) = x ∷ take n xs

  abbrev pub drop : ℕ → List A → List A
  drop zero xs = xs
  drop (suc n) [] = []
  drop (suc n) (x ∷ xs) = drop n xs

  abbrev pub replicate : ℕ → A → List A
  replicate zero a = []
  replicate (suc n) a = a ∷ replicate n a

  -- The test holds of every item, of some item.
  abbrev pub all : (A → Bool) → List A → Bool
  all p [] = true
  all p (x ∷ xs) = p x && all p xs

  abbrev pub any : (A → Bool) → List A → Bool
  any p [] = false
  any p (x ∷ xs) = p x || any p xs

  -- The predicate holds of every item.
  abbrev pub All {κ} : (A → Type κ) → List A → Type κ
  All P [] = Unit
  All P (x ∷ xs) = P x × All P xs

  pub length-append : (xs ys : List A) → length (xs ++ ys) ≡ length xs + length ys
  length-append [] ys = omega arith
  length-append (x ∷ xs) ys = omega (arith, length-append xs ys)

  pub length-replicate : (n : ℕ) (a : A) → length (replicate n a) ≡ n
  length-replicate zero a = refl
  length-replicate (suc n) a = ap suc (length-replicate n a)

  pub length-drop : (n : ℕ) (xs : List A) → length (drop n xs) ≡ length xs - n
  length-drop zero xs = omega arith
  length-drop (suc n) [] = omega arith
  length-drop (suc n) (x ∷ xs) = omega (arith, length-drop n xs)

  -- The last `n` items, or all of them.
  abbrev pub last_of : ℕ → List A → List A
  last_of n xs = drop (length xs - n) xs

  pub drop-suc : (k : ℕ) (xs : List A) → drop (suc k) xs ≡ drop 1 (drop k xs)
  drop-suc zero xs = refl
  drop-suc (suc k) [] = refl
  drop-suc (suc k) (x ∷ xs) = drop-suc k xs

  pub drop-append :
      (k : ℕ) (xs : List A) (x : A) → k ≤ length xs → drop k (xs ++ x ∷ []) ≡ drop k xs ++ x ∷ []
  drop-append zero xs x h = refl
  drop-append (suc k) [] x h = ground (arith, h)
  drop-append (suc k) (y ∷ xs) x h = drop-append k xs x (omega (arith, h))

  pub length-last_of :
      (n : ℕ) (xs : List A) → length (last_of n xs) ≡ (if leb n (length xs) then n else length xs)
  length-last_of n xs = ground (arith, length-drop (length xs - n) xs)

  pub last_of_short : (n : ℕ) (xs : List A) → length xs ≤ n → last_of n xs ≡ xs
  last_of_short n xs h = let e : length xs - n ≡ 0 = omega (arith, h) in ap (λ k. drop k xs) e

  pub last_of_long :
      (n : ℕ) (xs : List A) (x : A)
      → 1 ≤ n
      → n ≤ length xs
      → last_of n (xs ++ x ∷ []) ≡ drop 1 (last_of n xs) ++ x ∷ []
  last_of_long n xs x h l =
      let e : length (xs ++ x ∷ []) - n ≡ suc (length xs - n) =
        omega (arith, length-append xs (x ∷ []), l) in
      ap (λ k. drop k (xs ++ x ∷ [])) e
      ∙ drop-append (suc (length xs - n)) xs x (omega (arith, h, l))
      ∙ ap (λ ys. ys ++ x ∷ []) (drop-suc (length xs - n) xs)

  pub last_of-snoc :
      (n : ℕ) (xs : List A) (x : A) → last_of (suc n) (xs ++ x ∷ []) ≡ last_of n xs ++ x ∷ []
  last_of-snoc n xs x =
      let e : length (xs ++ x ∷ []) - suc n ≡ length xs - n =
        omega (arith, length-append xs (x ∷ [])) in
      ap (λ k. drop k (xs ++ x ∷ [])) e ∙ drop-append (length xs - n) xs x (omega arith)

  -- Without the first item, where that is none of the last `n`.
  pub last_of-tail :
      (n : ℕ) (xs : List A) → suc n ≤ length xs → last_of n (drop 1 xs) ≡ last_of n xs
  last_of-tail n [] h = refl
  last_of-tail n (x ∷ xs) h =
      let e : length (x ∷ xs) - n ≡ suc (length xs - n) = omega (arith, h) in
      sym (ap (λ k. drop k (x ∷ xs)) e)

  pub any-append : (p : A → Bool) (xs ys : List A) → any p (xs ++ ys) ≡ any p xs || any p ys
  any-append p [] ys = refl
  any-append p (x ∷ xs) ys = ground (arith, any-append p xs ys)

  pub any-drop : (p : A → Bool) (n : ℕ) (xs : List A) → any p (drop n xs) ≡ true → any p xs ≡ true
  any-drop p zero xs h = h
  any-drop p (suc n) [] h = h
  any-drop p (suc n) (x ∷ xs) h = ground (arith, any-drop p n xs h)
