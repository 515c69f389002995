-- ===== src/Fetcher/Penalty.antt =====
-- What a penalty does to the pool.
use webspider.Prelude.{
  ℕ, suc, ◌+◌, ◌-◌, ◌*◌, ◌≤◌, ◌≡◌, min, true, le→leb, refl, arith, List, [], ◌∷◌, none, leb, leb→le,
  Bool-cases, inl, inr, ◌<◌,
}
use webspider.Outcome.{ok}
use webspider.Dedupe.{pos, negsuc}
use webspider.Fetcher.{
  TokenBucket, acquire_pass, refill, take_tokens, shifted, penalise, Event, pass, penalty,
  count_grant, grants,
}
use webspider.Fetcher.Rate.{Within, Within-le}

-- Passes only.
abbrev pub Passes : List Event → Type 0
Passes [] = Unit
Passes (pass now ∷ events) = Passes events
Passes (penalty seconds now ∷ events) = ⊥

before_last-grants :
    (events : List Event) (five need start stop : ℕ) (b : TokenBucket)
    → stop < b.last
    → Passes events
    → Within start stop events
    → grants five need events b ≡ 0
unfolding grants acquire_pass count_grant
before_last-grants [] five need start stop b h only w = refl
before_last-grants (penalty _ _ ∷ events) five need start stop b h only w = elim only [ ]
before_last-grants (pass now ∷ events) five need start stop b h only w =
    let ih = before_last-grants events five need now stop b h only w.1 in
    let end = Within-le now stop events w.1 in
    elim (Bool-cases (leb b.last now)) [
      | inl e ↦ absurd (omega (arith, leb→le b.last now e))
      | inr e ↦ rw e ih
    ]

-- A penalty stops the whole pool: whatever the bucket held, no pass between the penalty and its end
-- is granted, as long as no other penalty comes.
pub penalise-grants :
    (events : List Event) (five need seconds now stop : ℕ) (b : TokenBucket)
    → stop < now + seconds
    → Passes events
    → Within now stop events
    → grants five need events (penalise (pos seconds) now b) ≡ 0
unfolding penalise shifted
penalise-grants events five need seconds now stop b h only w =
    before_last-grants events five need now stop (penalise (pos seconds) now b) h only w

-- A penalty of a negative number of seconds, long enough for the bucket's rate to fill it and not
-- longer than the time since times count, is none: the next pass for at most the capacity, even at
-- the same time, is granted from a full bucket, whatever it held before.
pub penalise-refills :
    (five need seconds now : ℕ) (b : TokenBucket)
    → need ≤ b.capacity
    → suc seconds ≤ now
    → b.capacity ≤ suc seconds * b.rate
    → acquire_pass five need now (penalise (negsuc seconds) now b)
      ≡ (ok none, record b { tokens = b.capacity - need; last = now })
unfolding acquire_pass refill take_tokens penalise shifted
penalise-refills five need seconds now b fits early fills =
    let past : leb (now - suc seconds) now ≡ true = le→leb _ _ (omega arith) in
    let back : now - (now - suc seconds) ≡ suc seconds = omega arith in
    let full : min b.capacity (0 + suc seconds * b.rate) ≡ b.capacity = omega arith in
    let enough : leb need b.capacity ≡ true = le→leb need b.capacity fits in
    rw (past, back, full, enough) refl
