-- ===== src/Gaps/Laws.antt =====
-- management/commands/backfill_blocks_v1.py: the gaps are the blocks that are not processed.
use abstract_block_dumper.Prelude.{
  ℕ, zero, suc, ◌+◌, ◌-◌, ◌<◌, ◌≡◌, refl, Bool, not, Option, none, some, List, ◌∷◌, [], ◌++◌, keep,
  length, leb, Bool-cases, inl, inr, arith, ap, ◌∙◌,
}
use abstract_block_dumper.Backfill.{blocks_from, block_range}
use abstract_block_dumper.Gaps.{Gap, total_missing, scan, find_gaps}
use abstract_block_dumper.Gaps.Roundtrip.{AreGaps, find_gaps-AreGaps}
use mathlib.Core.List.{append_assoc}

-- The blocks of the gaps, in order.
abbrev pub blocks_of : List Gap → List ℕ
blocks_of [] = []
blocks_of (g ∷ rest) = block_range g.start g.end ++ blocks_of rest

-- The blocks of a list that are not processed.
abbrev pub missing : (ℕ → Bool) → List ℕ → List ℕ
missing processed = keep (λ block. not (processed block))

-- The blocks since the start of an open gap.
abbrev pub open_blocks : Option ℕ → ℕ → List ℕ
open_blocks none block = []
open_blocks (some start) block = blocks_from start (block - start)

-- An open gap starts before the block that comes next.
abbrev pub StartsBefore : Option ℕ → ℕ → Type 0
StartsBefore none block = Unit
StartsBefore (some start) block = start < block

pub blocks_from-snoc :
    (from n : ℕ) → blocks_from from (suc n) ≡ blocks_from from n ++ (from + n) ∷ []
blocks_from-snoc from zero = ap (λ (b : ℕ). b ∷ []) (omega arith)
blocks_from-snoc from (suc n) =
    let e : suc from + n ≡ from + suc n = omega arith in
    ap (λ (l : List ℕ). from ∷ l)
      (blocks_from-snoc (suc from) n ∙ ap (λ (b : ℕ). blocks_from (suc from) n ++ b ∷ []) e)

open_blocks-suc :
    (start block : ℕ)
    → start < block
    → open_blocks (some start) (suc block) ≡ open_blocks (some start) block ++ block ∷ []
open_blocks-suc start block h =
    let e : suc block - start ≡ suc (block - start) = omega arith in
    let f : start + (block - start) ≡ block = omega arith in
    ap (blocks_from start) e
    ∙ blocks_from-snoc start (block - start)
    ∙ ap (λ (b : ℕ). blocks_from start (block - start) ++ b ∷ []) f

open_blocks-one : (block : ℕ) → open_blocks (some block) (suc block) ≡ block ∷ []
open_blocks-one block = let e : suc block - block ≡ 1 = omega arith in ap (blocks_from block) e

scan_blocks :
    (processed : ℕ → Bool) (to_block : ℕ) (start : Option ℕ) (block n : ℕ)
    → suc to_block ≡ block + n
    → StartsBefore start block
    → blocks_of (scan processed to_block start (blocks_from block n))
      ≡ open_blocks start block ++ missing processed (blocks_from block n)
unfolding scan
scan_blocks processed to_block none block zero e h = refl
scan_blocks processed to_block (some start) block zero e h =
    let f : suc to_block ≡ block = omega arith in
    ap (λ (b : ℕ). blocks_from start (b - start) ++ []) f
scan_blocks processed to_block none block (suc n) e h = elim (Bool-cases (processed block)) [
  | inl y ↦ rw y (scan_blocks processed to_block none (suc block) n (omega arith) tt)
  | inr z ↦ rw z (
      scan_blocks processed to_block (some block) (suc block) n (omega arith) (omega arith)
      ∙ ap (λ (l : List ℕ). l ++ missing processed (blocks_from (suc block) n))
          (open_blocks-one block))
]
scan_blocks processed to_block (some start) block (suc n) e h =
    elim (Bool-cases (processed block)) [
      | inl y ↦ rw y (
          ap (λ (l : List ℕ). blocks_from start (suc (block - 1) - start) ++ l)
            (scan_blocks processed to_block none (suc block) n (omega arith) tt)
          ∙ let f : suc (block - 1) ≡ block = omega arith in
            ap
              (λ (b : ℕ).
                blocks_from start (b - start) ++ missing processed (blocks_from (suc block) n))
              f)
      | inr z ↦ rw z (
          scan_blocks processed to_block (some start) (suc block) n (omega arith) (omega arith)
          ∙ ap (λ (l : List ℕ). l ++ missing processed (blocks_from (suc block) n))
              (open_blocks-suc start block h)
          ∙ append_assoc (blocks_from start (block - start)) (block ∷ [])
              (missing processed (blocks_from (suc block) n)))
    ]

find_gaps-blocks_of :
    (from_block to_block : ℕ) (processed : ℕ → Bool)
    → blocks_of (find_gaps from_block to_block processed)
      ≡ missing processed (block_range from_block to_block)
unfolding find_gaps scan
find_gaps-blocks_of from_block to_block processed =
    elim (Bool-cases (leb from_block (suc to_block))) [
      | inl y ↦
          scan_blocks processed to_block none from_block (suc to_block - from_block) (ground arith)
            tt
      | inr z ↦ let e : suc to_block - from_block ≡ 0 = ground arith in rw e refl
    ]

length-append {ℓ} : {A : Type ℓ} (xs ys : List A) → length (xs ++ ys) ≡ length xs + length ys
length-append [] ys = omega arith
length-append (x ∷ xs) ys = omega (arith, length-append xs ys)

pub length-blocks_from : (from n : ℕ) → length (blocks_from from n) ≡ n
length-blocks_from from zero = refl
length-blocks_from from (suc n) = ap suc (length-blocks_from (suc from) n)

total_missing_lem : (gaps : List Gap) → total_missing gaps ≡ length (blocks_of gaps)
unfolding total_missing
total_missing_lem [] = refl
total_missing_lem (g ∷ rest) = omega (
  arith,
  total_missing_lem rest,
  length-append (block_range g.start g.end) (blocks_of rest),
  length-blocks_from g.start (suc g.end - g.start),
)

-- The blocks of the gaps, one gap after the other, are exactly the blocks of the range that are not
-- processed, in ascending order; no gap is empty or next to another, all lie in the range, and their
-- sizes add up to the number of those blocks.
pub find_gaps_blocks :
    (from_block to_block : ℕ) (processed : ℕ → Bool)
    → let gaps = find_gaps from_block to_block processed in
      (blocks_of gaps ≡ missing processed (block_range from_block to_block))
      × AreGaps from_block to_block gaps
      × (total_missing gaps ≡ length (missing processed (block_range from_block to_block)))
find_gaps_blocks from_block to_block processed =
    let e = find_gaps-blocks_of from_block to_block processed in
    (
      e,
      find_gaps-AreGaps from_block to_block processed,
      total_missing_lem (find_gaps from_block to_block processed) ∙ ap length e,
    )
