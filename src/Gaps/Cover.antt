-- ===== src/Gaps/Cover.antt =====
-- management/commands/backfill_blocks_v1.py: which blocks the gaps cover.
use abstract_block_dumper.Prelude.{
  ℕ, zero, suc, ◌+◌, ◌-◌, ◌≤◌, ◌≡◌, refl, Bool, not, ◌&&◌, ◌||◌, List, ◌∷◌, [], ◌++◌, leb, ltb,
  ◌==◌, keep, Bool-cases, inl, inr, arith, ap, ◌∙◌, sym,
}
use abstract_block_dumper.Backfill.{blocks_from, block_range}
use abstract_block_dumper.BackfillScheduler.DryRun.{member}
use abstract_block_dumper.Gaps.{Gap, find_gaps}
use abstract_block_dumper.Gaps.Laws.{blocks_of, find_gaps_blocks}
use abstract_block_dumper.Gaps.Roundtrip.{covers}

member-append : (c : ℕ) (xs ys : List ℕ) → member c (xs ++ ys) ≡ (member c xs || member c ys)
member-append c [] ys = refl
member-append c (x ∷ xs) ys = ground (arith, member-append c xs ys)

member-blocks_from :
    (c from n : ℕ) → member c (blocks_from from n) ≡ (leb from c && ltb c (from + n))
member-blocks_from c from zero = ground arith
member-blocks_from c from (suc n) = ground (arith, member-blocks_from c (suc from) n)

member-keep : (p : ℕ → Bool) (c : ℕ) (xs : List ℕ) → member c (keep p xs) ≡ (member c xs && p c)
member-keep p c [] = refl
member-keep p c (x ∷ xs) = elim (Bool-cases (c == x)) [
  | inl y ↦ let same : c ≡ x = ground arith in ground (arith, member-keep p c xs, ap p same)
  | inr n ↦ ground (arith, member-keep p c xs)
]

member-blocks_of : (c : ℕ) (gaps : List Gap) → member c (blocks_of gaps) ≡ covers gaps c
member-blocks_of c [] = refl
member-blocks_of c (g ∷ rest) =
    member-append c (block_range g.start g.end) (blocks_of rest)
    ∙ ground (arith, member-blocks_from c g.start (suc g.end - g.start), member-blocks_of c rest)

-- A block of the range is in a gap exactly when it is not processed.
pub find_gaps-covers :
    (from_block to_block c : ℕ) (processed : ℕ → Bool)
    → from_block ≤ c
    → c ≤ to_block
    → covers (find_gaps from_block to_block processed) c ≡ not (processed c)
find_gaps-covers from_block to_block c processed h k =
    sym (member-blocks_of c (find_gaps from_block to_block processed))
    ∙ ap (member c) (find_gaps_blocks from_block to_block processed).0
    ∙ member-keep (λ b. not (processed b)) c (block_range from_block to_block)
    ∙ ground (arith, member-blocks_from c from_block (suc to_block - from_block))
