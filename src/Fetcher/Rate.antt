-- ===== src/Fetcher/Rate.antt =====
-- The rate limit: what a bucket grants in a stretch of time, whatever its threads do.
use native.Mathlib.Nat.{mul-add, mul-le-mul_right, suc-mul, mul_comm}
use webspider.Prelude.{
  ℕ, suc, ◌+◌, ◌-◌, ◌*◌, ◌≤◌, ◌≡◌, refl, arith, List, [], ◌∷◌, leb, leb→le, Bool-cases, inl, inr,
  min, ◌==◌,
}
use webspider.Dedupe.{pos, negsuc}
use webspider.Fetcher.{
  TokenBucket, refill, take_tokens, acquire_pass, shifted, penalise, Event, pass, penalty,
  count_grant, grants,
}

-- The steps happen in order, none before `start` and none after `stop`.
abbrev pub Within : ℕ → ℕ → List Event → Type 0
Within start stop [] = start ≤ stop
Within start stop (pass now ∷ events) = (start ≤ now) × Within now stop events
Within start stop (penalty seconds now ∷ events) = (start ≤ now) × Within now stop events

-- No penalty is of a negative number of seconds.
abbrev pub NoneNegative : List Event → Type 0
NoneNegative [] = Unit
NoneNegative (pass now ∷ events) = NoneNegative events
NoneNegative (penalty (pos seconds) now ∷ events) = NoneNegative events
NoneNegative (penalty (negsuc seconds) now ∷ events) = ⊥

pub Within-le : (start stop : ℕ) (events : List Event) → Within start stop events → start ≤ stop
Within-le start stop [] h = h
Within-le start stop (pass now ∷ events) h = omega (arith, Within-le now stop events h.1)
Within-le start stop (penalty d now ∷ events) h = omega (arith, Within-le now stop events h.1)

flow_split : (r a b c : ℕ) → a ≤ b → b ≤ c → (c - a) * r ≡ (b - a) * r + (c - b) * r
flow_split r a b c p q =
    let e : c - a ≡ (b - a) + (c - b) = omega arith in
    rw (
      e,
      mul_comm ((b - a) + (c - b)) r,
      mul-add r (b - a) (c - b),
      mul_comm r (b - a),
      mul_comm r (c - b),
    )

flow_mono : (r x y : ℕ) → x ≤ y → x * r ≤ y * r
flow_mono r x y h = mul-le-mul_right r h

-- The bucket after a refill up to `now`, with `t` tokens left and `taken` of them granted.
record Refilled (now taken : ℕ) (b b' : TokenBucket) : Type 0 where
  started : b.last ≤ now
  anchored : b'.last ≡ now
  same_rate : b'.rate ≡ b.rate
  same_capacity : b'.capacity ≡ b.capacity
  flowed : b'.tokens + taken ≤ b.tokens + (now - b.last) * b.rate
  capped : b'.tokens + taken ≤ b.capacity

-- A pass refills and grants `need` units, or refills and grants none, or leaves the bucket alone.
data PassResult (need now n : ℕ) (b b' : TokenBucket) (total : ℕ) : Type 0 where
  granted : Refilled now need b b' → total ≡ suc n → PassResult need now n b b' total
  refused : Refilled now 0 b b' → total ≡ n → PassResult need now n b b' total
  waiting : b' ≡ b → total ≡ n → PassResult need now n b b' total

take_tokens-PassResult :
    (five need now n : ℕ) (b : TokenBucket)
    → b.last ≤ now
    → PassResult need now n b
        (take_tokens five need (refill now b)).1
        (count_grant (take_tokens five need (refill now b)).0 n)
unfolding take_tokens refill count_grant
take_tokens-PassResult five need now n b h =
    let t = min b.capacity (b.tokens + (now - b.last) * b.rate) in
    elim (Bool-cases (leb need t)) [
      | inl e ↦
          let le = leb→le need t e in
          rw e (
            granted
              (record {
                started = h;
                anchored = refl;
                same_rate = refl;
                same_capacity = refl;
                flowed = omega arith;
                capped = omega arith;
              })
              (omega arith))
      | inr e ↦
          let kept : Refilled now 0 b (refill now b) = record {
            started = h;
            anchored = refl;
            same_rate = refl;
            same_capacity = refl;
            flowed = omega arith;
            capped = omega arith;
          } in
          elim (Bool-cases (b.rate == 0)) [
            | inl z ↦ rw (e, z) (refused kept refl)
            | inr z ↦ rw (e, z) (refused kept refl)
          ]
    ]

acquire_pass-PassResult :
    (five need now n : ℕ) (b : TokenBucket)
    → PassResult need now n b
        (acquire_pass five need now b).1
        (count_grant (acquire_pass five need now b).0 n)
unfolding acquire_pass count_grant
acquire_pass-PassResult five need now n b = elim (Bool-cases (leb b.last now)) [
  | inl e ↦ rw e (take_tokens-PassResult five need now n b (leb→le b.last now e))
  | inr e ↦ rw e (waiting refl refl)
]

-- What has flowed up to a refill at `now` and flows from there to `stop`, from `low` on.
flow_total :
    (r low last now stop : ℕ)
    → low ≤ last
    → last ≤ now
    → now ≤ stop
    → (now - last) * r + (stop - now) * r ≤ (stop - low) * r
flow_total r low last now stop p q h =
    omega
      (arith, flow_split r last now stop q h, flow_mono r (stop - last) (stop - low) (omega arith))

-- One refill and the grants after it, from what is known of those.
Refilled-flow :
    (low stop used : ℕ) {now taken : ℕ} {b b' : TokenBucket}
    → Refilled now taken b b'
    → low ≤ b.last
    → now ≤ stop
    → used ≤ b'.tokens + (stop - now) * b'.rate
    → used + taken ≤ b.tokens + (stop - low) * b.rate
Refilled-flow low stop used {now} {taken} {b} {b'} r p h ih =
    let flow = flow_total b.rate low b.last now stop p r.started h in
    let ih' : used ≤ b'.tokens + (stop - now) * b.rate = rw r.same_rate at ih in omega arith

Refilled-window :
    (start stop used : ℕ) {now taken : ℕ} {b b' : TokenBucket}
    → Refilled now taken b b'
    → start ≤ now
    → used ≤ b'.tokens + (stop - now) * b'.rate
    → used + taken ≤ b.capacity + (stop - start) * b.rate
Refilled-window start stop used {now} {taken} {b} {b'} r p ih =
    let flow = flow_mono b.rate (stop - now) (stop - start) (omega arith) in
    let ih' : used ≤ b'.tokens + (stop - now) * b.rate = rw r.same_rate at ih in omega arith

-- The grants from a bucket whose refill clock does not stand before `low`.
grants-flow :
    (events : List Event) (five need start stop low : ℕ) (b : TokenBucket)
    → low ≤ b.last
    → low ≤ start
    → Within start stop events
    → NoneNegative events
    → grants five need events b * need ≤ b.tokens + (stop - low) * b.rate
unfolding grants penalise shifted
grants-flow [] five need start stop low b p q w up = omega arith
grants-flow (penalty (negsuc d) now ∷ events) five need start stop low b p q w up = elim up [ ]
grants-flow (penalty (pos d) now ∷ events) five need start stop low b p q w up = omega (
  arith,
  grants-flow events five need now stop now (penalise (pos d) now b) (omega arith) (omega arith) w.1
      up,
  flow_mono b.rate (stop - now) (stop - low) (omega (arith, w.0)),
)
grants-flow (pass now ∷ events) five need start stop low b p q w up =
    let b' = (acquire_pass five need now b).1 in
    let end = Within-le now stop events w.1 in
    elim (acquire_pass-PassResult five need now (grants five need events b') b) [
      | granted r e ↦
          let ih =
            grants-flow events five need now stop now b' (omega (arith, r.anchored)) (omega arith)
              w.1 up in
          rw (e, suc-mul) (Refilled-flow low stop _ r p end ih)
      | refused r e ↦
          let ih =
            grants-flow events five need now stop now b' (omega (arith, r.anchored)) (omega arith)
              w.1 up in
          rw e (omega (arith, Refilled-flow low stop _ r p end ih))
      | waiting same e ↦
          let ih = grants-flow events five need now stop low b p (omega (arith, w.0)) w.1 up in
          rw (e, same) ih
    ]

-- The rate limit: whatever passes and penalties the threads make between two times, each at a
-- time no earlier than the one before and no penalty of a negative number of seconds, what the bucket
-- grants in between is at most its capacity and what flows in at its rate meanwhile, provided that
-- it holds no more than its capacity at the start.
pub grants-bound :
    (events : List Event) (five need start stop : ℕ) (b : TokenBucket)
    → b.tokens ≤ b.capacity
    → Within start stop events
    → NoneNegative events
    → grants five need events b * need ≤ b.capacity + (stop - start) * b.rate
unfolding grants penalise shifted
grants-bound [] five need start stop b full w up = omega arith
grants-bound (penalty (negsuc d) now ∷ events) five need start stop b full w up = elim up [ ]
grants-bound (penalty (pos d) now ∷ events) five need start stop b full w up = omega (
  arith,
  grants-bound events five need now stop (penalise (pos d) now b) (omega arith) w.1 up,
  flow_mono b.rate (stop - now) (stop - start) (omega (arith, w.0)),
)
grants-bound (pass now ∷ events) five need start stop b full w up =
    let b' = (acquire_pass five need now b).1 in
    elim (acquire_pass-PassResult five need now (grants five need events b') b) [
      | granted r e ↦
          let ih =
            grants-flow events five need now stop now b' (omega (arith, r.anchored)) (omega arith)
              w.1 up in
          rw (e, suc-mul) (Refilled-window start stop _ r w.0 ih)
      | refused r e ↦
          let ih =
            grants-flow events five need now stop now b' (omega (arith, r.anchored)) (omega arith)
              w.1 up in
          rw e (omega (arith, Refilled-window start stop _ r w.0 ih))
      | waiting same e ↦
          let ih = grants-bound events five need now stop b full w.1 up in
          let later = flow_mono b.rate (stop - now) (stop - start) (omega (arith, w.0)) in
          rw (e, same) (omega (arith, ih, later))
    ]
