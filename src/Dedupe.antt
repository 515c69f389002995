-- ===== src/Dedupe.antt =====
-- py-processor/dedupe.py: tokens, the SimHash fingerprint, the Hamming distance and the LSH bands.
-- `str.lower` and `hashlib.blake2b` are parameters: the first is a Unicode table, the second a hash
-- of which nothing but the eight bytes it returns is used.
pub mod Bands
pub mod Majority
use Prim.Native.Nat.{bit_or, bit_xor}
use webspider.Prelude.{
  ℕ, zero, suc, ◌+◌, ◌-◌, ◌*◌, ◌/◌, ◌%◌, ◌^◌, Bool, ◌&&◌, ◌||◌, true, false, List, [], ◌∷◌, ◌++◌,
  Text, leb, ltb, ◌==◌, if◌then◌else◌, replicate,
}
use webspider.Bits.{bit_count}
use webspider.Outcome.{Outcome, ok, raise, value_error, zero_division}

-- A Python `int` that counts up and down: `negsuc n` is -(n + 1).
pub data ℤ : Type 0 where
  pos : ℕ → ℤ
  negsuc : ℕ → ℤ

-- `v += 1`
unfoldable pub inc : ℤ → ℤ
inc (pos n) = pos (suc n)
inc (negsuc zero) = pos zero
inc (negsuc (suc n)) = negsuc n

-- `v -= 1`
unfoldable pub dec : ℤ → ℤ
dec (pos zero) = negsuc zero
dec (pos (suc n)) = pos n
dec (negsuc n) = negsuc (suc n)

-- `v > 0`
unfoldable pub is_positive : ℤ → Bool
is_positive (pos zero) = false
is_positive (pos (suc n)) = true
is_positive (negsuc n) = false

pub record Hashing : Type 0 where
  -- `str.lower`
  pub lower : Text → Text
  -- `hashlib.blake2b(data, digest_size=8).digest()`: the bytes of the digest
  pub blake2b : List ℕ → List ℕ

-- `[a-z0-9_]`
unfoldable pub is_token_char : ℕ → Bool
is_token_char c = (leb b'a' c && leb c b'z') || (leb b'0' c && leb c b'9') || c == b'_'

-- The token read so far, if there is one, ahead of the rest.
unfoldable pub flush : Text → List Text → List Text
flush [] rest = rest
flush (c ∷ cur) rest = (c ∷ cur) ∷ rest

-- `re.findall("[a-z0-9_]+", s)`: the maximal runs, in order; `cur` is the run being read.
unfoldable pub find_tokens : Text → Text → List Text
unfolding flush
find_tokens cur [] = flush cur []
find_tokens cur (c ∷ s) = elim (is_token_char c) [
  | true ↦ find_tokens (cur ++ c ∷ []) s
  | false ↦ flush cur (find_tokens [] s)
]

-- `int.from_bytes(digest, "big")`
unfoldable pub from_bytes : ℕ → List ℕ → ℕ
from_bytes n [] = n
from_bytes n (b ∷ bs) = from_bytes (n * 256 + b) bs

-- `(h >> i) & 1`
unfoldable pub bit_at : ℕ → ℕ → Bool
bit_at h i = h / 2 ^ i % 2 == 1

-- The inner loop of `simhash` over the counters `v[i], v[i + 1], ...`.
unfoldable pub vote : ℕ → ℕ → List ℤ → List ℤ
unfolding inc dec bit_at
vote h i [] = []
vote h i (x ∷ v) = (if bit_at h i then inc x else dec x) ∷ vote h (suc i) v

-- The last loop of `simhash`: `out |= 1 << i` where the counter is positive.
unfoldable pub collect : ℕ → ℕ → List ℤ → ℕ
unfolding is_positive
collect i out [] = out
collect i out (x ∷ v) = collect (suc i) (if is_positive x then bit_or out (2 ^ i) else out) v

unfoldable pub hamming : ℕ → ℕ → ℕ
hamming a b = bit_count (bit_xor a b)

-- `hamming` where the second argument was read from a text and may be negative: the exclusive or
-- with -(m + 1) is -((a ^ m) + 1), and `bit_count` counts the ones of the absolute value.
unfoldable pub hamming_int : ℕ → ℤ → ℕ
unfolding hamming
hamming_int a (pos b) = hamming a b
hamming_int a (negsuc m) = bit_count (bit_xor a m + 1)

-- The loop of `bucket_keys`: `n` rounds are left.
unfoldable pub band_keys : ℕ → ℕ → ℕ → ℕ → ℕ → List ℕ
band_keys bits width shift zero h = []
band_keys bits width shift (suc n) h =
    h / 2 ^ shift ∷ band_keys bits width shift n (h * 2 ^ width % 2 ^ bits)

unfoldable pub bucket_keys : ℕ → ℕ → ℕ → Outcome (List ℕ)
unfolding band_keys
bucket_keys h bits bands =
    if bands == 0
    then raise zero_division
    else if bits % bands == 0
    then (let width = bits / bands in ok (band_keys bits width (bits - width) bands h))
    else raise value_error

module _ (hs : Hashing) where
  unfoldable pub tokens : Text → List Text
  unfolding find_tokens
  tokens text = find_tokens [] (hs.lower text)

  -- A token is ASCII, so its UTF-8 bytes are its code points.
  unfoldable pub token_hash : Text → ℕ → ℕ
  unfolding from_bytes
  token_hash token bits = from_bytes 0 (hs.blake2b token) % 2 ^ bits

  -- The outer loop of `simhash`.
  unfoldable pub tally : ℕ → List Text → List ℤ → List ℤ
  unfolding vote token_hash
  tally bits [] v = v
  tally bits (t ∷ ts) v = tally bits ts (vote (token_hash t bits) 0 v)

  unfoldable pub simhash : Text → ℕ → ℕ
  unfolding tally collect tokens
  simhash [] bits = 0
  simhash (c ∷ text) bits = collect 0 0 (tally bits (tokens (c ∷ text)) (replicate bits (pos 0)))
