-- ===== src/Dual/Reply/Laws.antt =====
-- The laws of the reply status table.
use eigrp.Prelude.{
  ℕ, ◌≡◌, ◌≢◌, refl, ◌∙◌, Bool, true, false, Bool-cases, List, [], ◌∷◌, ◌++◌, arith, ◌==◌, ==_iff,
  inl, inr, ap, if_false, not, ◌||◌,
}
use eigrp.Topology.{ReplyStatus}
use eigrp.Dual.Reply.{status_lookup, pending, status_add, status_delete}

-- No neighbor has two entries.
abbrev pub IsDistinct : List ReplyStatus → Type 0
IsDistinct [] = Unit
IsDistinct (s ∷ ss) = (pending s.neighbor ss ≡ false) × IsDistinct ss

pending-cons :
    (n : ℕ) (s : ReplyStatus) (ss : List ReplyStatus)
    → pending n (s ∷ ss) ≡ ((s.neighbor == n) || pending n ss)
unfolding pending status_lookup
pending-cons n s ss = ground arith

pending-append :
    (n : ℕ) (xs ys : List ReplyStatus) → pending n (xs ++ ys) ≡ (pending n xs || pending n ys)
unfolding pending status_lookup
pending-append n [] ys = refl
pending-append n (x ∷ xs) ys = ground (arith, pending-append n xs ys)

-- The neighbor whose entry is deleted has none left; the entries of the others stay.
pub pending-status_delete :
    (n : ℕ) (ss : List ReplyStatus) → IsDistinct ss → pending n (status_delete n ss) ≡ false
unfolding status_delete pending status_lookup
pending-status_delete n [] d = refl
pending-status_delete n (s ∷ ss) d = elim (Bool-cases (s.neighbor == n)) [
  | inl eq ↦ rw eq (rw ((==_iff s.neighbor n).0 eq) at d.0)
  | inr ne ↦ rw ne (pending-cons n s (status_delete n ss) ∙ rw ne (pending-status_delete n ss d.1))
]

pub pending-status_delete_other :
    (m n : ℕ) (ss : List ReplyStatus) → m ≢ n → pending m (status_delete n ss) ≡ pending m ss
unfolding status_delete pending status_lookup
pending-status_delete_other m n [] d = refl
pending-status_delete_other m n (s ∷ ss) d = ground (arith, d, pending-status_delete_other m n ss d)

status_delete-IsDistinct :
    (n : ℕ) (ss : List ReplyStatus) → IsDistinct ss → IsDistinct (status_delete n ss)
unfolding status_delete
status_delete-IsDistinct n [] d = tt
status_delete-IsDistinct n (s ∷ ss) d = elim (Bool-cases (s.neighbor == n)) [
  | inl eq ↦ rw eq d.1
  | inr ne ↦ rw ne (
    pending-status_delete_other s.neighbor n ss (λ p. ground (arith, p, ne)) ∙ d.0,
    status_delete-IsDistinct n ss d.1,
  )
]

-- An entry at the end, for a neighbor that has none.
append-IsDistinct :
    (s : ReplyStatus) (ss : List ReplyStatus)
    → pending s.neighbor ss ≡ false
    → IsDistinct ss
    → IsDistinct (ss ++ (s ∷ []))
unfolding pending status_lookup
append-IsDistinct s [] h d = (refl, tt)
append-IsDistinct s (x ∷ xs) h d =
    let k : pending s.neighbor xs ≡ false = ground (arith, pending-cons s.neighbor x xs, h) in
    let ne : (s.neighbor == x.neighbor) ≡ false = ground (arith, h) in
    (
      pending-append x.neighbor xs (s ∷ []) ∙ rw d.0 (pending-cons x.neighbor s [] ∙ rw ne refl),
      append-IsDistinct s xs k d.1,
    )

status_add-IsDistinct :
    (alloc : Bool) (n : ℕ) (ss : List ReplyStatus)
    → IsDistinct ss
    → IsDistinct (status_add alloc n ss)
unfolding status_add
status_add-IsDistinct alloc n ss d = elim (Bool-cases (pending n ss || not alloc)) [
  | inl skip ↦ rw skip d
  | inr add ↦ rw add (append-IsDistinct _ ss (ground (arith, add)) d)
]

-- Every change of the table keeps one entry for a neighbor at most. A neighbor that is added, with
-- memory at hand, has an entry, one that is removed has none, and the others keep theirs.
pub record TableLaws (n : ℕ) (ss : List ReplyStatus) : Type 0 where
  pub add_distinct : (alloc : Bool) → IsDistinct (status_add alloc n ss)
  pub delete_distinct : IsDistinct (status_delete n ss)
  pub add_pending : pending n (status_add true n ss) ≡ true
  pub delete_pending : pending n (status_delete n ss) ≡ false
  pub delete_others : (m : ℕ) → m ≢ n → pending m (status_delete n ss) ≡ pending m ss

status_add-pending : (n : ℕ) (ss : List ReplyStatus) → pending n (status_add true n ss) ≡ true
unfolding status_add
status_add-pending n ss = elim (Bool-cases (pending n ss)) [
  | inl there ↦ rw there there
  | inr absent ↦
      let s : ReplyStatus = record {
        neighbor = n;
        sia_queries = 0;
        sia_response_received = true;
      } in
      ap (pending n) (if_false {b = pending n ss || not true} ss _ (rw absent refl))
      ∙ pending-append n ss (s ∷ [])
      ∙ rw absent (pending-cons n s [] ∙ ground arith)
]

-- The reply status table is a set of neighbors: no change of it gives a neighbor two entries; one
-- that is added is awaited if memory is at hand, one that is removed is not, and the others stay.
pub status_table_lem : (n : ℕ) (ss : List ReplyStatus) → IsDistinct ss → TableLaws n ss
status_table_lem n ss d = record {
  add_distinct = λ alloc. status_add-IsDistinct alloc n ss d;
  delete_distinct = status_delete-IsDistinct n ss d;
  add_pending = status_add-pending n ss;
  delete_pending = pending-status_delete n ss d;
  delete_others = λ m h. pending-status_delete_other m n ss h;
}
