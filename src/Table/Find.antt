-- ===== src/Table/Find.antt =====
-- What a lookup in the hash table finds (eigrp/code/eigrp_table.c).
use eigrp.Prelude.{
  ℕ, zero, suc, ◌-◌, ◌*◌, ◌%◌, ◌<◌, ◌≤◌, ◌≡◌, ◌∙◌, refl, sym, ap, true, false, none, some, List, [],
  ◌∷◌, length, All, arith, if◌then◌else◌, ◌==◌, leb, Bool-cases, inl, inr,
}
use mathlib.Core.Option.{or_else}
use mathlib.Core.Path.{subst}
use eigrp.Prefix.{Prefix, prefix_valid, prefix_normalize, same_bytes}
use eigrp.Prefix.Laws.{IsByte, IsPrefix, leading, prefix_normalize_valid}
use eigrp.Prefix.Match.{leading-zero, leading_twice, length-leading, leading-IsByte}
use eigrp.Table.{Node, prefix_hash, prefix_match, bucket_at, chain_node, rehash, find}
use eigrp.Table.Buckets.{length-on_bucket, bucket_at-on_bucket}

-- A valid prefix in its normal form
pub record IsNormal (p : Prefix) : Type 0 where
  pub array : IsPrefix p
  pub valid : prefix_valid p ≡ true
  pub masked : leading p.prefix_length p.address.bytes ≡ p.address.bytes

pub prefix_normalize-IsNormal :
    (p : Prefix) → IsPrefix p → prefix_valid p ≡ true → IsNormal (prefix_normalize p)
prefix_normalize-IsNormal p v ok =
    let bytes = p.address.bytes in
    rw (prefix_normalize_valid p v ok) (record {
      array = record {
        sixteen = omega (arith, v, length-leading p.prefix_length bytes);
        octets = leading-IsByte p.prefix_length bytes v.octets;
      };
      valid = unfold prefix_valid in ok;
      masked = leading_twice p.prefix_length bytes;
    })

same_bytes_self : (n : ℕ) (xs : List ℕ) → same_bytes n xs xs ≡ true
unfolding same_bytes
same_bytes_self zero xs = refl
same_bytes_self (suc n) [] = refl
same_bytes_self (suc n) (x ∷ xs) = ground (arith, same_bytes_self n xs)

leading_tail : (n x : ℕ) (xs : List ℕ) → leading n (x ∷ xs) ≡ x ∷ xs → leading (n - 8) xs ≡ xs
unfolding leading
leading_tail n x xs h = elim (Bool-cases (leb 8 n)) [
  | inl high ↦ ground (arith, high)
  | inr low ↦ let none_left : n - 8 ≡ 0 = ground arith in rw none_left (ground (arith, low))
]

-- Two masked addresses that agree on the bytes in use are the same array.
same_bytes_masked :
    (k n : ℕ) (xs ys : List ℕ)
    → n ≤ 8 * k
    → length xs ≡ length ys
    → All IsByte xs
    → All IsByte ys
    → leading n xs ≡ xs
    → leading n ys ≡ ys
    → same_bytes k xs ys ≡ true
    → xs ≡ ys
unfolding same_bytes
same_bytes_masked zero n xs ys le l bx by mx my h =
    let e : n ≡ 0 = omega arith in
    let zx : leading 0 xs ≡ xs = ap (λ (k : ℕ). leading k xs) (sym e) ∙ mx in
    let zy : leading 0 ys ≡ ys = ap (λ (k : ℕ). leading k ys) (sym e) ∙ my in
    sym zx ∙ (leading-zero xs ys bx by l ∙ zy)
same_bytes_masked (suc k) n [] [] le l bx by mx my h = refl
same_bytes_masked (suc k) n [] (y ∷ ys) le l bx by mx my h = absurd (omega arith)
same_bytes_masked (suc k) n (x ∷ xs) [] le l bx by mx my h = absurd (omega arith)
same_bytes_masked (suc k) n (x ∷ xs) (y ∷ ys) le l (bx, bxs) (by, bys) mx my h = ground (
  arith,
  same_bytes_masked k (n - 8) xs ys (omega arith) (omega arith) bxs bys (leading_tail n x xs mx)
      (leading_tail n y ys my),
)

pub prefix_match_self : (p : Prefix) → prefix_match p p ≡ true
unfolding prefix_match
prefix_match_self p =
    ground (arith, same_bytes_self 4 p.address.bytes, same_bytes_self 16 p.address.bytes)

-- Normal forms match exactly where they are equal.
pub prefix_match-eq : (a b : Prefix) → IsNormal a → IsNormal b → prefix_match a b ≡ true → a ≡ b
unfolding prefix_match prefix_valid
prefix_match-eq a b va vb h =
    let bytes : a.address.bytes ≡ b.address.bytes = ground (
      arith,
      va,
      vb,
      va.array,
      vb.array,
      same_bytes_masked 4 a.prefix_length a.address.bytes b.address.bytes,
      same_bytes_masked 16 a.prefix_length a.address.bytes b.address.bytes,
    ) in
    ground (arith, bytes)

-- A node has another prefix and another address.
abbrev pub IsOther : Node → Node → Type 0
IsOther n m = (prefix_match m.prefix n.prefix ≡ false) × ((m.id == n.id) ≡ false)

-- No two nodes have one prefix or one address, and all prefixes are normal forms.
abbrev pub IsDistinct : List Node → Type 0
IsDistinct [] = Unit {0}
IsDistinct (n ∷ nodes) = IsNormal n.prefix × All (IsOther n) nodes × IsDistinct nodes

pub find-none : (n : Node) (nodes : List Node) → All (IsOther n) nodes → find n.prefix nodes ≡ none
unfolding find
find-none n [] h = refl
find-none n (m ∷ nodes) (h, hs) = ground (arith, h, find-none n nodes hs)

find-chain_node :
    (count : ℕ) (key : Prefix) (n : Node) (bs : List (List Node))
    → prefix_hash n.prefix % count < length bs
    → (prefix_match n.prefix key ≡ true → n.prefix ≡ key)
    → find key (bucket_at (prefix_hash key % count) (chain_node count n bs)) ≡ (
        if prefix_match n.prefix key
        then some n
        else find key (bucket_at (prefix_hash key % count) bs))
unfolding chain_node find
find-chain_node count key n bs lt same = elim (Bool-cases (prefix_match n.prefix key)) [
  | inl e ↦
      let at =
        bucket_at-on_bucket (prefix_hash key % count) (prefix_hash n.prefix % count)
          (λ chain. n ∷ chain) bs lt in
      rw (at, ← same e) (ground (arith, prefix_match_self n.prefix))
  | inr e ↦
      let at =
        bucket_at-on_bucket (prefix_hash key % count) (prefix_hash n.prefix % count)
          (λ chain. n ∷ chain) bs lt in
      rw at (ground (arith, e))
]

pub find-rehash :
    (count : ℕ) (key : Prefix) (nodes : List Node) (bs : List (List Node))
    → 0 < count
    → length bs ≡ count
    → IsNormal key
    → IsDistinct nodes
    → find key (bucket_at (prefix_hash key % count) (rehash count nodes bs))
      ≡ or_else (find key nodes) (find key (bucket_at (prefix_hash key % count) bs))
unfolding rehash or_else find
find-rehash count key [] bs pos l v d = refl
find-rehash count key (n ∷ nodes) bs pos l v (vn, apart, d) =
    let h = prefix_hash n.prefix in
    let lt : h % count < count = grind arith in
    let here =
      find-chain_node count key n bs (omega (arith, l, lt)) (prefix_match-eq n.prefix key vn v) in
    let l' : length (chain_node count n bs) ≡ count =
      unfold chain_node in (length-on_bucket (h % count) (λ chain. n ∷ chain) bs ∙ l) in
    let rest = find-rehash count key nodes (chain_node count n bs) pos l' v d in
    elim (Bool-cases (prefix_match n.prefix key)) [
      | inl e ↦
          let same = prefix_match-eq n.prefix key vn v e in
          let none_left : find key nodes ≡ none =
            subst (λ (k : Prefix). find k nodes ≡ none) same (find-none n nodes apart) in
          rest ∙ rw (none_left, here, e) refl
      | inr e ↦ rest ∙ rw (here, e) refl
    ]
