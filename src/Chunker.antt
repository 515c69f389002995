-- ===== src/Chunker.antt =====
-- py-processor/chunker.py: `_split_paragraphs`, which cuts a long section into overlapping chunks.
pub mod Pieces
pub mod Sections
use mathlib.Core.List.{reverse}
use webspider.Prelude.{
  ℕ, zero, suc, ◌+◌, ◌*◌, ◌-◌, Bool, true, false, not, ◌&&◌, List, [], ◌∷◌, ◌++◌, Text, length, ltb,
  ◌==◌, if◌then◌else◌,
}

-- `"\n\n".join(paragraphs)`
unfoldable pub join : List Text → Text
join [] = []
join (p ∷ []) = p
join (p ∷ q ∷ ps) = p ++ b'\n' ∷ b'\n' ∷ join (q ∷ ps)

-- The loop over the reversed buffer: paragraphs are put in front of `carry` while their lengths,
-- with two for each separator, stay within the overlap.
unfoldable pub carry_back : ℕ → ℕ → List Text → List Text → List Text
carry_back overlap carry_len carry [] = carry
carry_back overlap carry_len carry (p ∷ rest) =
    let longer = carry_back overlap (carry_len + (length p + 2)) (p ∷ carry) rest in
    if ltb overlap (carry_len + length p + 2) then carry else longer

unfoldable pub lengths : List Text → ℕ
lengths [] = 0
lengths (p ∷ ps) = length p + lengths ps

-- `sum(len(p) for p in buf) + 2 * max(0, len(buf) - 1)`
unfoldable pub joined_length : List Text → ℕ
unfolding lengths
joined_length buf = lengths buf + 2 * (length buf - 1)

-- `buf_len + len(para) + (2 if buf_len else 0)`
unfoldable pub grown : ℕ → Text → ℕ
grown buf_len para = buf_len + length para + (if buf_len == 0 then 0 else 2)

-- `if buf and buf_len + len(para) + 2 > target`
unfoldable pub is_full : ℕ → List Text → ℕ → Text → Bool
is_full target [] buf_len para = false
is_full target (p ∷ buf) buf_len para = ltb target (buf_len + length para + 2)

-- `if buf: chunks.append(...)`
unfoldable pub last_chunk : List Text → List Text
unfolding join
last_chunk [] = []
last_chunk (p ∷ buf) = join (p ∷ buf) ∷ []

-- The loop over the paragraphs: the chunks from here on.
unfoldable pub split_from : ℕ → ℕ → List Text → ℕ → List Text → List Text
unfolding join carry_back joined_length grown is_full last_chunk
split_from target overlap buf buf_len [] = last_chunk buf
split_from target overlap buf buf_len (para ∷ paras) = elim (is_full target buf buf_len para) [
  | true ↦
      let carry = carry_back overlap 0 [] (reverse buf) in
      join buf
      ∷ split_from target overlap (carry ++ para ∷ []) (grown (joined_length carry) para) paras
  | false ↦ split_from target overlap (buf ++ para ∷ []) (grown buf_len para) paras
]

unfoldable pub split_paragraphs : List Text → ℕ → ℕ → List Text
unfolding split_from
split_paragraphs paragraphs target overlap = split_from target overlap [] 0 paragraphs
