-- ===== src/Library/Paths.antt =====
-- firmware/main/repositories/programs.cpp: every identifier has a file of its own, and no staging name is a
-- program's file.
use rotation_target.Common.{
  ℕ, zero, suc, ◌≡◌, ◌≢◌, refl, ap, sym, ◌∙◌, true, false, [], ◌∷◌, ◌++◌, ◌==◌, if◌then◌else◌,
  arith, drop,
}
use rotation_target.Common.Int.{ℤ, pos, negsuc}
use rotation_target.Common.Text.{
  Text, codes, decimal, decimal_ℕ, decimal-digits, decimal-starts, value_of-decimal,
  starts_with_digit,
}
use rotation_target.Json.Reader.{digits_from}
use rotation_target.Json.Quoted.{digits_from-digits}
use rotation_target.Library.{upload_dir, path_for}

negated : ℕ → ℤ
negated zero = pos 0
negated (suc n) = negsuc n

-- The number in front of a text.
number_in : Text → ℤ
number_in [] = pos 0
number_in (c ∷ cs) =
    if c == b'-' then negated (digits_from 0 cs).0 else pos (digits_from 0 (c ∷ cs)).0

digits_front : (n : ℕ) → (digits_from 0 (decimal_ℕ n ++ codes ".json")).0 ≡ n
digits_front n =
    rw (digits_from-digits 0 (decimal_ℕ n) (codes ".json") (decimal-digits n) refl)
      (value_of-decimal n)

number_in-digits :
    (ds rest : Text)
    → starts_with_digit ds ≡ true
    → number_in (ds ++ rest) ≡ pos (digits_from 0 (ds ++ rest)).0
unfolding number_in
number_in-digits [] rest h = ground (arith, h)
number_in-digits (c ∷ ds) rest h =
    let other : (c == b'-') ≡ false = ground (arith, h) in rw other refl

number_in-decimal : (id : ℤ) → number_in (decimal id ++ codes ".json") ≡ id
unfolding decimal number_in negated
number_in-decimal (pos n) =
    number_in-digits (decimal_ℕ n) (codes ".json") (decimal-starts n) ∙ ap pos (digits_front n)
number_in-decimal (negsuc n) = ap negated (digits_front (suc n))

pub path_for-injective : (i k : ℤ) → path_for upload_dir i ≡ path_for upload_dir k → i ≡ k
unfolding path_for
path_for-injective i k h =
    sym (number_in-decimal i) ∙ ap (λ t. number_in (drop 19 t)) h ∙ number_in-decimal k

-- The last byte, or `d`.
last_byte : ℕ → Text → ℕ
last_byte d [] = d
last_byte d (c ∷ cs) = last_byte c cs

last_byte-append : (d : ℕ) (xs ys : Text) → last_byte d (xs ++ ys) ≡ last_byte (last_byte d xs) ys
unfolding last_byte
last_byte-append d [] ys = refl
last_byte-append d (x ∷ xs) ys = last_byte-append x xs ys

last_byte-path : (id : ℤ) → last_byte 0 (path_for upload_dir id) ≡ b'n'
unfolding path_for last_byte
last_byte-path id = last_byte-append b'/' (decimal id) (codes ".json")

pub staging_apart : (i k : ℤ) → path_for upload_dir i ≢ (path_for upload_dir k ++ codes ".tmp")
unfolding last_byte
staging_apart i k h =
    let ends : b'n' ≡ b'p' =
      sym (last_byte-path i)
      ∙ ap (last_byte 0) h
      ∙ last_byte-append 0 (path_for upload_dir k) (codes ".tmp") in
    absurd (omega (arith, ends))
