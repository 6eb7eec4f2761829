-- ===== src/Table/Longest.antt =====
-- The longest match in the hash table (eigrp/code/eigrp_table.c).
use mathlib.Core.Path.{subst}
use eigrp.Prelude.{
  ◌≢◌, ◌⊎◌, ◌↔◌, ◌&&◌, ℕ, zero, suc, ◌≤◌, ◌<◌, ◌≡◌, ◌∙◌, sym, ap, Bool, true, false, Option, none,
  some, List, All, arith, if◌then◌else◌, leb, Option-cases, inl, inr, if_true,
}
use eigrp.Prefix.{Prefix, prefix_valid, prefix_normalize, prefix_address_match}
use eigrp.Prefix.Laws.{IsPrefix, leading, with_bytes, prefix_normalize_valid}
use eigrp.Prefix.Match.{prefix_address_match_iff}
use eigrp.Table.{Node, Table, find, node_lookup, probe, match_from, node_match}
use eigrp.Table.Find.{IsNormal, prefix_normalize-IsNormal}
use eigrp.Table.Changes.{IsWell, node_lookup_lem}
use eigrp.Table.Members.{IsIn, find-IsIn, find_member, IsIn-IsNormal, All-IsIn}

-- The prefix with fewer bits
abbrev pub shortened : Prefix → ℕ → Prefix
shortened p bitlen = record p { prefix_length = bitlen }

-- The node covers the prefix: its own prefix is not longer and matches the address.
unfoldable pub covers : Node → Prefix → Bool
covers n p = leb n.prefix.prefix_length p.prefix_length && prefix_address_match n.prefix p.address

module _ (p : Prefix) (v : IsPrefix p) (ok : prefix_valid p ≡ true) where
  shortened-valid : (k : ℕ) → k ≤ p.prefix_length → prefix_valid (shortened p k) ≡ true
  shortened-valid k le = unfold prefix_valid in ground (arith, ok, le)

  shortened-IsPrefix : (k : ℕ) → IsPrefix (shortened p k)
  shortened-IsPrefix k = record { sixteen = v.sixteen; octets = v.octets }

  normalize-shortened :
      (k : ℕ)
      → k ≤ p.prefix_length
      → prefix_normalize (shortened p k) ≡ with_bytes (leading k p.address.bytes) (shortened p k)
  normalize-shortened k le =
      prefix_normalize_valid (shortened p k) (shortened-IsPrefix k) (shortened-valid k le)

  -- A node covers the prefix where its own prefix is a shortened one.
  covers_iff :
      (n : Node)
      → IsNormal n.prefix
      → (covers n p ≡ true) ↔ (
          (n.prefix.prefix_length ≤ p.prefix_length)
          × (n.prefix ≡ prefix_normalize (shortened p n.prefix.prefix_length)))
  unfolding covers
  covers_iff n vn =
      let k = n.prefix.prefix_length in
      let matches = prefix_address_match_iff n.prefix p.address vn.array v.sixteen v.octets in
      (
        λ c. (
          ground (arith, c),
          (let (_, family, bits) = matches.0 (ground (arith, c)) in
              ap (λ (b : List ℕ). with_bytes b n.prefix) (sym vn.masked)
              ∙ (ground (arith, family, bits) ∙ sym (normalize-shortened k (ground (arith, c))))),
        ),
        λ h.
            let same = h.1 ∙ normalize-shortened k h.0 in
            let family = ap (λ (q : Prefix). q.address.afi) same in
            let bits = vn.masked ∙ ap (λ (q : Prefix). q.address.bytes) same in
            ground (arith, matches.1 (vn.valid, family, bits)),
      )

  module _ (info : ℕ → Bool) (t : Table) (w : IsWell t) where
    looked_up :
        (k : ℕ)
        → k ≤ p.prefix_length
        → node_lookup t (shortened p k) ≡ find (prefix_normalize (shortened p k)) t.order
    looked_up k le =
        node_lookup_lem t (shortened p k) w (shortened-IsPrefix k)
        ∙ if_true _ none (shortened-valid k le)

    probe-some :
        (k : ℕ) (n : Node)
        → k ≤ p.prefix_length
        → probe info t p k ≡ some n
        → IsIn n t.order × (info n.id ≡ true) × (covers n p ≡ true) × (n.prefix.prefix_length ≡ k)
    unfolding probe
    probe-some k n le h =
        let key = prefix_normalize (shortened p k) in
        let vk =
          prefix_normalize-IsNormal (shortened p k) (shortened-IsPrefix k) (shortened-valid k le) in
        elim (Option-cases (find key t.order)) [
          | inl absent ↦ absurd (ground (arith, looked_up k le, absent))
          | inr (m, here) ↦
              let same : m ≡ n = ground (arith, looked_up k le, here) in
              let set : info m.id ≡ true = ground (arith, looked_up k le, here) in
              let (member, pre) = find-IsIn key m t.order vk w.distinct here in
              let len : m.prefix.prefix_length ≡ k =
                ap (λ (q : Prefix). q.prefix_length) (pre ∙ normalize-shortened k le) in
              subst
                (λ (n : Node).
                  IsIn n t.order
                  × (info n.id ≡ true)
                  × (covers n p ≡ true)
                  × (n.prefix.prefix_length ≡ k))
                same
                (
                  member,
                  set,
                  (covers_iff m (IsIn-IsNormal m t.order w.distinct member)).1 (
                    omega arith,
                    pre ∙ ap (λ (j : ℕ). prefix_normalize (shortened p j)) (sym len),
                  ),
                  len,
                )
        ]

    probe-none :
        (k : ℕ) (n : Node)
        → k ≤ p.prefix_length
        → probe info t p k ≡ none
        → IsIn n t.order
        → info n.id ≡ true
        → covers n p ≡ true
        → n.prefix.prefix_length ≢ k
    unfolding probe
    probe-none k n le h member set cov len =
        let pre = ((covers_iff n (IsIn-IsNormal n t.order w.distinct member)).0 cov).1 in
        let key : n.prefix ≡ prefix_normalize (shortened p k) =
          pre ∙ ap (λ (j : ℕ). prefix_normalize (shortened p j)) len in
        let here : find (prefix_normalize (shortened p k)) t.order ≡ some n =
          ap (λ (q : Prefix). find q t.order) (sym key) ∙ find_member n t.order w.distinct member in
        ground (arith, looked_up k le, here)

    -- The walk down to the length 0 that finds nothing, and the one that stops at a node
    match_from-none :
        (k : ℕ) (n : Node)
        → k ≤ p.prefix_length
        → match_from info t p k ≡ none
        → IsIn n t.order
        → info n.id ≡ true
        → covers n p ≡ true
        → k < n.prefix.prefix_length
    unfolding match_from
    match_from-none zero n le h member set cov =
        ground (arith, probe-none zero n le h member set cov)
    match_from-none (suc k) n le h member set cov = elim (Option-cases (probe info t p (suc k))) [
      | inr (m, found) ↦ absurd (ground (arith, found))
      | inl missed ↦ ground (
        arith,
        probe-none (suc k) n le missed member set cov,
        match_from-none k n (omega arith) (ground (arith, missed)) member set cov,
      )
    ]

    match_from-some :
        (k : ℕ) (n : Node)
        → k ≤ p.prefix_length
        → match_from info t p k ≡ some n
        → IsIn n t.order
          × (info n.id ≡ true)
          × (covers n p ≡ true)
          × ((m : Node)
              → IsIn m t.order
              → info m.id ≡ true
              → covers m p ≡ true
              → (k < m.prefix.prefix_length) ⊎ (m.prefix.prefix_length ≤ n.prefix.prefix_length))
    unfolding match_from
    match_from-some zero n le h =
        let (member, set, cov, len) = probe-some zero n le h in
        (member, set, cov, λ m i s c. ground arith)
    match_from-some (suc k) n le h = elim (Option-cases (probe info t p (suc k))) [
      | inr (m, found) ↦
          let (member, set, cov, len) = probe-some (suc k) n le (ground (arith, found)) in
          (member, set, cov, λ m i s c. ground arith)
      | inl missed ↦
          let (member, set, cov, best) =
            match_from-some k n (omega arith) (ground (arith, missed)) in
          (
            member,
            set,
            cov,
            λ m i s c. ground (arith, probe-none (suc k) m le missed i s c, best m i s c),
          )
    ]

covers-le : (n : Node) (p : Prefix) → covers n p ≡ true → n.prefix.prefix_length ≤ p.prefix_length
unfolding covers
covers-le n p h = ground (arith, h)

-- What a longest match may answer: `none` where no node with an info covers the prefix, or the
-- longest of those that do
abbrev pub IsBest : (ℕ → Bool) → Prefix → List Node → Option Node → Type 0
IsBest info p nodes none = All (λ (m : Node). (info m.id && covers m p) ≡ false) nodes
IsBest info p nodes (some n) =
    IsIn n nodes
    × ((info n.id && covers n p) ≡ true)
    × All
        (λ (m : Node).
          (if info m.id && covers m p
            then leb m.prefix.prefix_length n.prefix.prefix_length
            else true)
          ≡ true)
        nodes

-- In a well table, the match of a valid prefix is the node with the longest prefix of those whose
-- info is set and that cover the prefix: a node covers it where its own prefix is not longer and
-- matches the address. Where no node does, the answer is none.
pub node_match-IsBest :
    (info : ℕ → Bool) (t : Table) (p : Prefix)
    → IsWell t
    → IsPrefix p
    → prefix_valid p ≡ true
    → IsBest info p t.order (node_match info t p)
unfolding node_match
node_match-IsBest info t p w v ok =
    let k = p.prefix_length in
    elim (Option-cases (match_from info t p k)) [
      | inl e ↦
          rw (ok, e)
            (All-IsIn _ t.order λ m i.
              ground (arith, covers-le m p, match_from-none p v ok info t w k m (omega arith) e i))
      | inr (n, e) ↦
          let (member, set, cov, best) = match_from-some p v ok info t w k n (omega arith) e in
          rw (ok, e)
            (
              member,
              ground (arith, set, cov),
              All-IsIn _ t.order λ m i. ground (arith, covers-le m p, best m i),
            )
    ]
