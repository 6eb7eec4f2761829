-- ===== src/Pacing/Bound.antt =====
-- What a paced interface sends in a period (eigrp/code/eigrp_packet.c).
use eigrp.Prelude.{
  ℕ, ap, ◌∙◌, ◌+◌, ◌-◌, ◌*◌, ◌≤◌, ◌≡◌, List, [], ◌∷◌, arith, refl, Bool, true, false, ◌&&◌, ltb,
  if◌then◌else◌, ◌==◌, Bool-cases, inl, inr, leb, mul_mono,
}
use eigrp.Pacing.{
  Link, Pacing, pacing_rate, charge_of, wait_for, budget_at, pacing_delay_msec, pacing_charge,
  attempt, header_len,
}
use eigrp.Pacing.Budget.{
  IsLink, Started, pacing_rate_bounds, wait_for_lem, budget_at-Started, budget_at-credit,
}

-- A packet, and the time of the clock when it is to be sent
pub record Try : Type 0 where
  pub hello : Bool
  pub packet_length : ℕ
  pub now_msec : ℕ

-- What one attempt sends of data, which Hellos are not
abbrev pub data_of : Try → ℕ → ℕ
data_of t sent = if t.hello then 0 else sent

-- Attempts to send packets, Hellos among them; the number is that of the bytes of data sent.
unfoldable pub attempts : Link → List Try → Pacing → ℕ × Pacing
attempts link [] p = (0, p)
attempts link (t ∷ more) p =
    let (sent, q) = attempt link t.hello t.packet_length t.now_msec p in
    let (rest, r) = attempts link more q in (data_of t sent + rest, r)

-- The clock never runs backwards, and lengths have 16 bits.
abbrev pub InOrder : ℕ → List Try → Type 0
InOrder last [] = Unit {0}
InOrder last (t ∷ more) = (t.packet_length ≤ 65535) × (last ≤ t.now_msec) × InOrder t.now_msec more

abbrev pub last_of : ℕ → List Try → ℕ
last_of last [] = last
last_of last (t ∷ more) = last_of t.now_msec more

module _ (l : Link) (v : IsLink l) where
  -- A Hello takes from the credit and leaves the clock of the budget alone.
  hello-spends :
      (len now : ℕ) (p : Pacing)
      → leb header_len len ≡ true
      → Started l now p
      → Started l now (attempt l true len now p).1
        × ((attempt l true len now p).1.credit ≤ p.credit)
        × ((attempt l true len now p).1.last_msec ≡ p.last_msec)
  unfolding attempt pacing_charge
  hello-spends len now p long s = ground (arith, long, s)

  -- A packet whose budget is looked at spends at most what the budget and the time that has passed
  -- allow.
  look-spends :
      (hello : Bool) (len now : ℕ) (p : Pacing)
      → hello && leb header_len len ≡ false
      → len ≤ 65535
      → Started l now p
      → Started l now (attempt l hello len now p).1
        × (800 * (attempt l hello len now p).0
              + (attempt l hello len now p).1.credit
              + p.last_msec * pacing_rate l
            ≤ p.credit + (attempt l hello len now p).1.last_msec * pacing_rate l)
  unfolding attempt pacing_delay_msec pacing_charge
  look-spends hello len now p looked short s =
      let rate = pacing_rate l in
      let q = budget_at l len now p in
      let time : (now - p.last_msec) * rate + p.last_msec * rate ≡ now * rate = grind (arith, s) in
      let less : p.last_msec * rate ≤ now * rate =
        mul_mono p.last_msec now rate rate s.last (omega arith) in
      let (t, last, bound) = budget_at-Started l v len short now p in
      let credit = budget_at-credit l v len short now p s in
      let wait =
        wait_for_lem rate (charge_of len) q.credit (pacing_rate_bounds l v).0
          (omega (arith, pacing_rate_bounds l v)) (omega arith) in
      elim (Bool-cases (len == 0)) [
        | inl e ↦ rw (looked, e) (ground (arith, s, e))
        | inr e ↦ elim (Bool-cases (wait_for rate (charge_of len) q.credit == 0)) [
          | inr waits ↦ rw (looked, e, waits) (ground (arith, t, last, credit, time, less))
          | inl sent ↦ elim (Bool-cases (ltb len header_len)) [
            | inl tiny ↦ rw (looked, e, sent, tiny) (ground (arith, t, last, credit, time, less))
            | inr whole ↦
                rw (looked, e, sent, whole) (ground (arith, t, last, credit, time, less, wait))
          ]
        ]
      ]

  -- One attempt spends for data at most what the budget and the time that has passed allow.
  attempt-spends :
      (t : Try) (p : Pacing)
      → t.packet_length ≤ 65535
      → Started l t.now_msec p
      → let after = attempt l t.hello t.packet_length t.now_msec p in
        Started l t.now_msec after.1
        × (800 * data_of t after.0 + after.1.credit + p.last_msec * pacing_rate l
            ≤ p.credit + after.1.last_msec * pacing_rate l)
  attempt-spends t p short s = spend t.hello refl
    where
      spend :
          (hello : Bool)
          → t.hello ≡ hello
          → let after = attempt l t.hello t.packet_length t.now_msec p in
            Started l t.now_msec after.1
            × (800 * data_of t after.0 + after.1.credit + p.last_msec * pacing_rate l
                ≤ p.credit + after.1.last_msec * pacing_rate l)
      spend false e =
          let (st, le) = look-spends false t.packet_length t.now_msec p refl short s in
          rw e (st, le)
      spend true e = elim (Bool-cases (leb header_len t.packet_length)) [
        | inl long ↦
            let (st, le, same) = hello-spends t.packet_length t.now_msec p long s in
            rw e (st, omega (arith, le, ap (λ (k : ℕ). k * pacing_rate l) same))
        | inr tiny ↦
            let (st, le) = look-spends true t.packet_length t.now_msec p tiny short s in
            rw e (st, omega (arith, le))
      ]

  Started-later : (now later : ℕ) (p : Pacing) → now ≤ later → Started l now p → Started l later p
  Started-later now later p le s = ground (arith, s)

  attempts-spend :
      (tries : List Try) (now : ℕ) (p : Pacing)
      → InOrder now tries
      → Started l now p
      → (800 * (attempts l tries p).0 + p.last_msec * pacing_rate l
          ≤ p.credit + (attempts l tries p).1.last_msec * pacing_rate l)
        × ((attempts l tries p).1.last_msec ≤ last_of now tries)
  unfolding attempts
  attempts-spend [] now p o s = ground (arith, s)
  attempts-spend (t ∷ more) now p (short, le, o) s =
      let (s', step) = attempt-spends t p short (Started-later now t.now_msec p le s) in
      let (rest, last) =
        attempts-spend more t.now_msec (attempt l t.hello t.packet_length t.now_msec p).1 o s' in
      (omega (arith, step, rest), last)

split_at_least : (e last rate : ℕ) → last ≤ e → e * rate ≡ rate * (e - last) + last * rate
split_at_least e last rate h =
    let whole : e ≡ last + (e - last) = omega arith in
    let d = e - last in ap (λ (k : ℕ). k * rate) whole ∙ grind arith

period_split : (e last rate : ℕ) → e * rate ≤ rate * (e - last) + last * rate
period_split e last rate = elim (Bool-cases (leb last e)) [
  | inl h ↦ omega (arith, split_at_least e last rate (ground (arith, h)))
  | inr h ↦ omega (arith, mul_mono e last rate rate (ground (arith, h)) (omega arith))
]

-- However many packets eigrp_packet_write is to send over a link with its configuration in its
-- ranges, at times in order and with Hellos among them, the bytes that it sends of packets other
-- than Hellos are at most those of the credit at the beginning and of the rate of the link over the
-- period.
pub attempts_bound :
    (l : Link) (tries : List Try) (now : ℕ) (p : Pacing)
    → IsLink l
    → InOrder now tries
    → Started l now p
    → 800 * (attempts l tries p).0 ≤ p.credit + pacing_rate l * (last_of now tries - p.last_msec)
attempts_bound l tries now p v o s =
    let (spent, last) = attempts-spend l v tries now p o s in
    let r = (attempts l tries p).1.last_msec in
    let e = last_of now tries in
    let most : r * pacing_rate l ≤ e * pacing_rate l =
      mul_mono r e (pacing_rate l) (pacing_rate l) last (omega arith) in
    let split : e * pacing_rate l
        ≤ pacing_rate l * (e - p.last_msec) + p.last_msec * pacing_rate l =
      period_split e p.last_msec (pacing_rate l) in
    omega (arith, spent, most, split)
