-- ===== src/Chunker/Pieces.antt =====
-- No paragraph is lost or repeated beyond the overlap when a section is split.
use mathlib.Core.Path.{subst}
use mathlib.Core.List.{reverse, append_assoc}
use webspider.Prelude.{
  ℕ, ◌+◌, ◌≤◌, ◌≡◌, refl, sym, ap, arith, Bool-cases, inl, inr, List, [], ◌∷◌, ◌++◌, Text, length,
  ltb, map, All,
}
use webspider.Chunker.{
  join, carry_back, grown, joined_length, is_full, last_chunk, split_from, split_paragraphs,
}

-- The paragraphs of a chunk: those carried over from the chunk before, then new ones.
pub record Piece : Type 0 where
  pub carried : List Text
  pub first : Text
  pub more : List Text

abbrev pub fresh : Piece → List Text
fresh p = p.first ∷ p.more

unfoldable pub all_fresh : List Piece → List Text
all_fresh [] = []
all_fresh (p ∷ ps) = fresh p ++ all_fresh ps

unfoldable pub chunk : Piece → Text
chunk p = join (p.carried ++ fresh p)

-- What carried paragraphs take of the overlap.
unfoldable pub weight : List Text → ℕ
weight [] = 0
weight (p ∷ ps) = length p + 2 + weight ps

-- Chunks as pieces whose new paragraphs are the given ones in order.
pub record IsSplit (overlap : ℕ) (paragraphs chunks : List Text) : Type 0 where
  pub pieces : List Piece
  pub chunks_of : chunks ≡ map chunk pieces
  pub in_order : all_fresh pieces ≡ paragraphs
  pub overlaps : All (λ p. weight p.carried ≤ overlap) pieces

weight-carry_back :
    (overlap n : ℕ) (carry rest : List Text)
    → weight carry ≡ n
    → n ≤ overlap
    → weight (carry_back overlap n carry rest) ≤ overlap
unfolding carry_back weight
weight-carry_back overlap n carry [] e h = omega arith
weight-carry_back overlap n carry (p ∷ rest) e h =
    elim (Bool-cases (ltb overlap (n + length p + 2))) [
      | inl full ↦ rw full (omega arith)
      | inr fits ↦ rw fits (
          weight-carry_back overlap (n + (length p + 2)) (p ∷ carry) rest (omega arith)
            (ground arith))
    ]

last_chunk-nonempty :
    (c : List Text) (x : Text) (xs : List Text) → last_chunk (c ++ x ∷ xs) ≡ join (c ++ x ∷ xs) ∷ []
unfolding last_chunk
last_chunk-nonempty [] x xs = refl
last_chunk-nonempty (y ∷ c) x xs = refl

-- A chunk in front of a split.
IsSplit-cons :
    {overlap : ℕ} (p : Piece) (paragraphs chunks : List Text)
    → weight p.carried ≤ overlap
    → IsSplit overlap paragraphs chunks
    → IsSplit overlap (fresh p ++ paragraphs) (join (p.carried ++ fresh p) ∷ chunks)
unfolding chunk all_fresh
IsSplit-cons p paragraphs chunks h r = record {
  pieces = p ∷ r.pieces;
  chunks_of = ap (λ (l : List Text). join (p.carried ++ fresh p) ∷ l) r.chunks_of;
  in_order = ap (λ (l : List Text). fresh p ++ l) r.in_order;
  overlaps = (h, r.overlaps);
}

IsSplit-nil : {overlap : ℕ} → IsSplit overlap [] []
unfolding all_fresh
IsSplit-nil = record { pieces = []; chunks_of = refl; in_order = refl; overlaps = tt }

split_from-IsSplit :
    (target overlap n : ℕ) (p : Piece) (paras : List Text)
    → weight p.carried ≤ overlap
    → IsSplit overlap (fresh p ++ paras) (split_from target overlap (p.carried ++ fresh p) n paras)
unfolding split_from weight
split_from-IsSplit target overlap n p [] h =
    rw (last_chunk-nonempty p.carried p.first p.more) (IsSplit-cons p [] [] h IsSplit-nil)
split_from-IsSplit target overlap n p (para ∷ paras) h =
    let carry = carry_back overlap 0 [] (reverse (p.carried ++ fresh p)) in
    let q : Piece = record { carried = carry; first = para; more = [] } in
    let q' : Piece = record p { more = p.more ++ para ∷ [] } in
    let light =
      weight-carry_back overlap 0 [] (reverse (p.carried ++ fresh p)) refl (omega arith) in
    let cut = split_from-IsSplit target overlap (grown (joined_length carry) para) q paras light in
    let same = split_from-IsSplit target overlap (grown n para) q' paras h in
    elim (Bool-cases (is_full target (p.carried ++ fresh p) n para)) [
      | inl full ↦ rw (full, split_from) (IsSplit-cons p (para ∷ paras) _ h cut)
      | inr room ↦
          rw (room, split_from)
            (subst
              (λ (b : List Text).
                IsSplit overlap (fresh p ++ para ∷ paras)
                  (split_from target overlap b (grown n para) paras))
              (sym (append_assoc p.carried (fresh p) (para ∷ [])))
              (subst
                (λ (ps : List Text). IsSplit overlap ps (
                  split_from target overlap (p.carried ++ (fresh p ++ para ∷ [])) (grown n para)
                    paras))
                (append_assoc (fresh p) (para ∷ []) paras) same))
    ]

-- A section that has paragraphs is split into chunks of two parts each: new paragraphs, at least
-- one, that over all the chunks are the paragraphs of the section in order, each of them once; and
-- before them paragraphs carried over, whose lengths with two for each separator are at most the
-- overlap.
pub split_paragraphs-IsSplit :
    (para : Text) (paras : List Text) (target overlap : ℕ)
    → IsSplit overlap (para ∷ paras) (split_paragraphs (para ∷ paras) target overlap)
unfolding split_paragraphs split_from is_full weight
split_paragraphs-IsSplit para paras target overlap =
    split_from-IsSplit target overlap (grown 0 para)
      (record { carried = []; first = para; more = [] }) paras (omega arith)
