-- ===== src/UriPath/Segments.antt =====
-- firmware/lib/rt_logic/uri_path.h: exactly which paths carry an identifier.
use rotation_target.Common.{
  ℕ, zero, suc, ◌+◌, ◌-◌, ◌≤◌, ◌≡◌, ◌↔◌, refl, ap, sym, ◌∙◌, Bool, true, false, not, ◌&&◌, Option,
  none, some, [], ◌∷◌, ◌++◌, length, take, drop, all, ltb, leb, if◌then◌else◌, arith, Bool-cases,
  inl, inr, length-append, length-drop,
}
use mathlib.Core.List.{append_assoc}
use rotation_target.Common.Int.{ℤ, pos}
use rotation_target.Common.Text.{Text, is_digit, text_eq, text_eq_refl, text_eq→eq, value_of}
use rotation_target.ProgramParser.{id_from}
use rotation_target.ProgramParser.FileNames.{
  id_from-digits, id_from-some, take-length, drop-length, take-drop, length-take,
}
use rotation_target.UriPath.{before_query, path_id}

-- One or more digits between the two, which write a number of an int32_t.
abbrev pub IsPath : Text → Text → Text → ℤ → Type 0
IsPath path prefix suffix id =
    (digits : Text) × (path ≡ prefix ++ (digits ++ suffix))
    × (1 ≤ length digits)
    × (all is_digit digits ≡ true)
    × (value_of 0 digits ≤ 2147483647)
    × (id ≡ pos (value_of 0 digits))

length-parts :
    (prefix digits suffix : Text)
    → length (prefix ++ (digits ++ suffix)) ≡ length prefix + length digits + length suffix
length-parts prefix digits suffix =
    omega (arith, length-append prefix (digits ++ suffix), length-append digits suffix)

suffix_of :
    (prefix digits suffix : Text)
    → drop (length (prefix ++ digits)) (prefix ++ (digits ++ suffix)) ≡ suffix
suffix_of prefix digits suffix =
    ap (drop (length (prefix ++ digits))) (sym (append_assoc prefix digits suffix))
    ∙ drop-length (prefix ++ digits) suffix

unchanged : (b : Bool) (o : Option ℤ) → (if b && false then none else o) ≡ o
unchanged true o = refl
unchanged false o = refl

built :
    (uri prefix digits suffix : Text)
    → before_query uri ≡ prefix ++ (digits ++ suffix)
    → 1 ≤ length digits
    → path_id uri prefix suffix ≡ id_from 0 digits
unfolding path_id
built uri prefix digits suffix e some_digits =
    let path = prefix ++ (digits ++ suffix) in
    let len = length-parts prefix digits suffix in
    let long : leb (length path) (length prefix + length suffix) ≡ false =
      ground (arith, len, some_digits) in
    let middle : length path - length prefix - length suffix ≡ length digits = omega (arith, len) in
    let front : length path - length suffix ≡ length (prefix ++ digits) =
      omega (arith, len, length-append prefix digits) in
    rw e (
      rw long (
        rw (take-length prefix (digits ++ suffix)) (
          rw (text_eq_refl prefix) (
            rw front (
              rw (suffix_of prefix digits suffix) (
                rw (text_eq_refl suffix) (
                  rw middle (
                    rw (drop-length prefix (digits ++ suffix)) (
                      rw (take-length digits suffix)
                        (unchanged (ltb 0 (length suffix)) (id_from 0 digits)))))))))))

IsPath-path_id :
    (uri prefix suffix : Text) (id : ℤ)
    → IsPath (before_query uri) prefix suffix id
    → path_id uri prefix suffix ≡ some id
IsPath-path_id uri prefix suffix id (ds, e, l, d, m, i) =
    built uri prefix ds suffix e l ∙ id_from-digits 0 ds d m ∙ ap some (sym i)

drop_nil : (k : ℕ) → drop {A = ℕ} k [] ≡ []
drop_nil zero = refl
drop_nil (suc k) = refl

drop-drop : (a b : ℕ) (xs : Text) → drop a (drop b xs) ≡ drop (b + a) xs
drop-drop a zero xs = let e : a ≡ zero + a = omega arith in ap (λ k. drop k xs) e
drop-drop a (suc b) [] = drop_nil a ∙ sym (drop_nil (suc b + a))
drop-drop a (suc b) (x ∷ xs) =
    let e : suc (b + a) ≡ suc b + a = omega arith in drop-drop a b xs ∙ ap (λ k. drop k (x ∷ xs)) e

empty_text : (xs : Text) → length xs ≡ 0 → xs ≡ []
empty_text [] h = refl
empty_text (x ∷ xs) h = ground (arith, h)

-- The end of the path is the suffix, also where the code does not compare it.
ends :
    (path suffix : Text)
    → (ltb 0 (length suffix) && not (text_eq (drop (length path - length suffix) path) suffix))
      ≡ false
    → drop (length path - length suffix) path ≡ suffix
ends path suffix h = elim (Bool-cases (ltb 0 (length suffix))) [
  | inl long ↦
      text_eq→eq (drop (length path - length suffix) path) suffix (ground (arith, rw long at h))
  | inr none_there ↦
      let empty : suffix ≡ [] = empty_text suffix (ground (arith, none_there)) in
      empty_text (drop (length path - length suffix) path)
        (ground (arith, none_there, length-drop (length path - length suffix) path))
      ∙ sym empty
]

path_id-IsPath :
    (uri prefix suffix : Text) (id : ℤ)
    → path_id uri prefix suffix ≡ some id
    → IsPath (before_query uri) prefix suffix id
unfolding path_id
path_id-IsPath uri prefix suffix id h =
    let path = before_query uri in
    let lp = length prefix in
    let ls = length suffix in
    elim (Bool-cases (leb (length path) (lp + ls))) [
      | inl short ↦ ground (arith, rw short at h)
      | inr long ↦ elim (Bool-cases (text_eq (take lp path) prefix)) [
        | inr e ↦ ground (arith, rw e at (rw long at h))
        | inl e ↦
            elim (Bool-cases (ltb 0 ls && not (text_eq (drop (length path - ls) path) suffix))) [
              | inl n ↦ ground (arith, rw n at (rw e at (rw long at h)))
              | inr n ↦
                  let rest = drop lp path in
                  let m = length path - lp - ls in
                  let from : id_from 0 (take m rest) ≡ some id = rw n at (rw e at (rw long at h)) in
                  let parts = id_from-some 0 (take m rest) id (omega arith) from in
                  let size : length rest ≡ length path - lp = length-drop lp path in
                  let whole : lp + m ≡ length path - ls = ground (arith, long) in
                  let tail : drop m rest ≡ suffix =
                    drop-drop m lp path ∙ ap (λ k. drop k path) whole ∙ ends path suffix n in
                  let split : path ≡ prefix ++ (take m rest ++ suffix) =
                    take-drop lp path
                    ∙ ap (λ t. t ++ rest) (text_eq→eq (take lp path) prefix e)
                    ∙ ap (λ t. prefix ++ t) (take-drop m rest ∙ ap (λ t. take m rest ++ t) tail) in
                  let count : length (take m rest) ≡ m =
                    length-take m rest (ground (arith, size)) in
                  (take m rest, split, ground (arith, long, count), parts.0, parts.1, parts.2)
            ]
      ]
    ]

-- A URI is read as an identifier exactly when what stands before its query is the prefix, digits, at
-- least one, and the suffix, and the digits write a number of at most 2147483647, which is the
-- identifier.
pub path_id_lem :
    (uri prefix suffix : Text) (id : ℤ)
    → path_id uri prefix suffix ≡ some id ↔ IsPath (before_query uri) prefix suffix id
path_id_lem uri prefix suffix id =
    (path_id-IsPath uri prefix suffix id, IsPath-path_id uri prefix suffix id)
