-- ===== src/Tests/Fingerprints.antt =====
-- The fingerprint, the bands, the index and integer texts at concrete inputs.
use webspider.Bits.{bit_count}
use webspider.Prelude.{ℕ, ◌≡◌, refl, arith, ltb, true, List, [], ◌∷◌, some, Text, codes, text_eq}
use webspider.Outcome.{ok, raise, value_error}
use webspider.Str.{decimal, parse_int}
use webspider.Dedupe.{
  negsuc, simhash, bit_at, tokens, hamming, bucket_keys, hamming_int, is_token_char,
}
use webspider.Dedupe.Bands.{SharesBand, bucket_keys-SharesBand}
use webspider.Dedupe.Majority.{supporters, opponents, bit_at-simhash}
use webspider.Services.Run.{State, issue, lift, pure, ◌>>=◌}
use webspider.Neardup.{index, is_duplicate, band_key}
use webspider.Neardup.Recall.{index-IsIndexed, is_duplicate-finds}
use webspider.Neardup.Sound.{CloseMember, is_duplicate-CloseMember}
use webspider.Tests.World.{memory, hashing, small, up, additions, members_of}
use webspider.Tests.Laws.{memory_sets}

abbrev three_words : Text
three_words = codes "the lazy dog_7"

tokens_of_words : tokens hashing three_words ≡ codes "the" ∷ codes "lazy" ∷ codes "dog_7" ∷ []
unfolding tokens is_token_char
tokens_of_words = refl

-- The hashes are 3, 4 and 5: bits 0 and 2 have two votes of three.
simhash_of_words : simhash hashing three_words 8 ≡ 5
unfolding simhash is_token_char
simhash_of_words = refl

keys_of_word : bucket_keys 0xabcd 16 4 ≡ ok (0xa ∷ 0xb ∷ 0xc ∷ 0xd ∷ [])
unfolding bucket_keys
keys_of_word = refl

keys_of_uneven : bucket_keys 7 64 5 ≡ raise value_error
unfolding bucket_keys
keys_of_uneven = refl

negative_member : hamming_int 5 (negsuc 4) ≡ 1
unfolding hamming_int bit_count
negative_member = refl

int_with_signs : parse_int (codes " -1_000 ") ≡ some (negsuc 999)
unfolding parse_int
int_with_signs = refl

bucket_keys-SharesBand_example :
    (ka kb : List ℕ) × (bucket_keys 0xabcd 16 4 ≡ ok ka)
    × (bucket_keys 0xabfd 16 4 ≡ ok kb)
    × SharesBand ka kb
unfolding hamming bit_count
bucket_keys-SharesBand_example =
    bucket_keys-SharesBand 16 4 0xabcd 0xabfd (omega arith) refl (omega arith) (omega arith)
      (omega arith)

bit_at-simhash_example :
    bit_at (simhash hashing three_words 8) 2
    ≡ ltb
        (opponents hashing 8 2 (tokens hashing three_words))
        (supporters hashing 8 2 (tokens hashing three_words))
bit_at-simhash_example = bit_at-simhash hashing b't' (codes "he lazy dog_7") 8 2 (omega arith)

-- A world in which the fingerprint 4 is indexed, one bit off that of the words.
abbrev indexed : State memory
indexed = (index memory hashing small 4 up).state

is_duplicate_run : (is_duplicate memory hashing small three_words indexed).result ≡ ok (true, 5)
unfolding is_duplicate index ◌>>=◌ lift bucket_keys issue members_of additions text_eq band_key
    decimal simhash is_token_char parse_int hamming_int bit_count pure
is_duplicate_run = refl

index_run : (index memory hashing small 4 up).result ≡ ok tt
unfolding index ◌>>=◌ lift bucket_keys issue
index_run = refl

near_words : hamming (simhash hashing three_words 8) 4 ≡ 1
unfolding hamming simhash bit_count is_token_char
near_words = refl

is_duplicate-finds_example : true ≡ true
is_duplicate-finds_example =
    is_duplicate-finds memory_sets small hashing three_words 4 indexed true 5
      (record { some_bands = omega arith; divides = refl; below_bands = omega arith }) (omega arith)
      (index-IsIndexed memory_sets small hashing 4 up index_run) (omega (arith, near_words))
      is_duplicate_run

is_duplicate-CloseMember_example :
    (5 ≡ simhash hashing three_words 8) × CloseMember small 5 (memory_sets.member indexed.world)
is_duplicate-CloseMember_example =
    is_duplicate-CloseMember memory_sets small hashing three_words indexed 5 is_duplicate_run
