-- ===== src/Prelude/Reversed.antt =====
-- A list before a position, the latest element first, put back in front of the list after it.
use Prim.Native.Nat.{ℕ, zero, suc, ◌+◌}
use mathlib.Core.Path.{◌≡◌, refl, ap, sym, ◌∙◌}
use mathlib.Core.List.{List, [], ◌∷◌, ◌++◌, append_assoc}
use native.Mathlib.Omega.{arith}
use native.Mathlib.Numerals.{unary_clauses}
use eigrp.Prelude.Lists.{length, take, drop}

abbrev pub rev_append : List ℕ → List ℕ → List ℕ
rev_append [] ys = ys
rev_append (x ∷ xs) ys = rev_append xs (x ∷ ys)

pub length-rev_append : (xs ys : List ℕ) → length (rev_append xs ys) ≡ length xs + length ys
length-rev_append [] ys = omega arith
length-rev_append (x ∷ xs) ys = omega (arith, length-rev_append xs (x ∷ ys))

drop-suc : (n : ℕ) (xs : List ℕ) → drop (suc n) xs ≡ drop 1 (drop n xs)
drop-suc zero xs = refl
drop-suc (suc n) [] = refl
drop-suc (suc n) (x ∷ xs) = drop-suc n xs

pub drop-rev_append : (xs ys : List ℕ) → drop (length xs) (rev_append xs ys) ≡ ys
drop-rev_append [] ys = refl
drop-rev_append (x ∷ xs) ys =
    drop-suc (length xs) (rev_append xs (x ∷ ys)) ∙ ap (drop 1) (drop-rev_append xs (x ∷ ys))

pub take-append : (xs ys : List ℕ) → take (length xs) (xs ++ ys) ≡ xs
take-append [] ys = refl
take-append (x ∷ xs) ys = ap (λ (t : List ℕ). x ∷ t) (take-append xs ys)

pub rev_append-rev_append :
    (bytes past next : List ℕ)
    → rev_append (rev_append bytes past) next ≡ rev_append past (bytes ++ next)
rev_append-rev_append [] past next = refl
rev_append-rev_append (x ∷ bytes) past next = rev_append-rev_append bytes (x ∷ past) next

pub rev_append_lem : (xs ys : List ℕ) → rev_append xs ys ≡ rev_append xs [] ++ ys
rev_append_lem [] ys = refl
rev_append_lem (x ∷ xs) ys =
    rev_append_lem xs (x ∷ ys)
    ∙ (sym (append_assoc (rev_append xs []) (x ∷ []) ys)
        ∙ ap (λ (t : List ℕ). t ++ ys) (sym (rev_append_lem xs (x ∷ []))))

pub take-rev_append : (xs ys : List ℕ) → take (length xs) (rev_append xs ys) ≡ rev_append xs []
take-rev_append xs ys =
    let n : length (rev_append xs []) ≡ length xs = omega (arith, length-rev_append xs []) in
    ground (arith, n, rev_append_lem xs ys, take-append (rev_append xs []) ys)

pub drop-drop : (m n : ℕ) (xs : List ℕ) → drop (m + n) xs ≡ drop n (drop m xs)
drop-drop zero n xs = ap (λ (k : ℕ). drop k xs) (omega arith)
drop-drop (suc m) zero [] = simp unary_clauses refl
drop-drop (suc m) (suc n) [] = simp unary_clauses refl
drop-drop (suc m) n (x ∷ xs) =
    ap (λ (k : ℕ). drop k (x ∷ xs)) {y = suc (m + n)} (omega arith) ∙ drop-drop m n xs

pub rev_append-append :
    (xs ys zs : List ℕ) → rev_append (xs ++ ys) zs ≡ rev_append ys (rev_append xs zs)
rev_append-append [] ys zs = refl
rev_append-append (x ∷ xs) ys zs = rev_append-append xs ys (x ∷ zs)
