-- ===== src/Gaps/Roundtrip.antt =====
-- management/commands/backfill_blocks_v1.py: gaps are the normal form of the missing blocks.
use abstract_block_dumper.Prelude.{
  ℕ, zero, suc, ◌+◌, ◌-◌, ◌≤◌, ◌<◌, ◌≡◌, refl, Bool, true, false, not, ◌&&◌, ◌||◌, none, some, List,
  ◌∷◌, [], leb, ◌==◌, Bool-cases, inl, inr, arith, ap, sym, subst,
}
use abstract_block_dumper.Backfill.{blocks_from}
use abstract_block_dumper.Gaps.{Gap, scan, find_gaps}

-- Gaps from `from_block` to `to_block`, none empty, in ascending order, and none next to another.
abbrev pub AreGaps : ℕ → ℕ → List Gap → Type 0
AreGaps from_block to_block [] = Unit
AreGaps from_block to_block (g ∷ rest) =
    (from_block ≤ g.start)
    × (g.start ≤ g.end)
    × (g.end ≤ to_block)
    × AreGaps (suc (suc g.end)) to_block rest

abbrev pub covers : List Gap → ℕ → Bool
covers [] block = false
covers (g ∷ rest) block = (leb g.start block && leb block g.end) || covers rest block

AreGaps-lower :
    (low high to_block : ℕ) (gaps : List Gap)
    → low ≤ high
    → AreGaps high to_block gaps
    → AreGaps low to_block gaps
AreGaps-lower low high to_block [] h a = tt
AreGaps-lower low high to_block (g ∷ rest) h a = (omega arith, a.1, a.2, a.3)

scan-AreGaps :
    (processed : ℕ → Bool) (to_block block n : ℕ)
    → suc to_block ≡ block + n
    → AreGaps block to_block (scan processed to_block none (blocks_from block n))
      × ((start : ℕ)
          → start < block
          → AreGaps start to_block (scan processed to_block (some start) (blocks_from block n)))
unfolding scan
scan-AreGaps processed to_block block zero e =
    (tt, λ start h. (omega arith, omega arith, omega arith, tt))
scan-AreGaps processed to_block block (suc n) e =
    let ih = scan-AreGaps processed to_block (suc block) n (omega arith) in
    elim (Bool-cases (processed block)) [
      | inl y ↦ rw y (
        AreGaps-lower block (suc block) to_block _ (omega arith) ih.0,
        λ start h. (
          omega arith,
          omega arith,
          omega arith,
          AreGaps-lower (suc (suc (block - 1))) (suc block) to_block _ (omega arith) ih.0,
        ),
      )
      | inr z ↦ rw z (ih.1 block (omega arith), λ start h. ih.1 start (omega arith))
    ]

pub find_gaps-AreGaps :
    (from_block to_block : ℕ) (processed : ℕ → Bool)
    → AreGaps from_block to_block (find_gaps from_block to_block processed)
unfolding find_gaps scan
find_gaps-AreGaps from_block to_block processed =
    elim (Bool-cases (leb from_block (suc to_block))) [
      | inl y ↦
          (scan-AreGaps processed to_block from_block (suc to_block - from_block) (ground arith)).0
      | inr z ↦ let e : suc to_block - from_block ≡ 0 = ground arith in rw e tt
    ]

covers_below :
    (low to_block block : ℕ) (gaps : List Gap)
    → AreGaps low to_block gaps
    → block < low
    → covers gaps block ≡ false
covers_below low to_block block [] a h = refl
covers_below low to_block block (g ∷ rest) a h =
    ground (arith, covers_below (suc (suc g.end)) to_block block rest a.3)

-- From `block` on, the blocks that are not processed are those of the gaps.
Agrees : (ℕ → Bool) → List Gap → ℕ → Type 0
Agrees processed gaps block = (c : ℕ) → block ≤ c → processed c ≡ not (covers gaps c)

Agrees-later :
    (processed : ℕ → Bool) (gaps : List Gap) (block : ℕ)
    → Agrees processed gaps block
    → Agrees processed gaps (suc block)
unfolding Agrees
Agrees-later processed gaps block a c h = a c (omega arith)

-- Behind the end of the first gap only the others matter.
Agrees-rest :
    (processed : ℕ → Bool) (g : Gap) (rest : List Gap) (block : ℕ)
    → g.end < block
    → Agrees processed (g ∷ rest) block
    → Agrees processed rest block
unfolding Agrees
Agrees-rest processed g rest block h a c k = ground (arith, a c k)

module _ (processed : ℕ → Bool) (to_block : ℕ) where
  -- The scan of the blocks that are left, with no open gap, finds the gaps that are left.
  FindsClosed : ℕ → ℕ → Type 0
  FindsClosed block n =
      (gaps : List Gap)
      → Agrees processed gaps block
      → AreGaps block to_block gaps
      → scan processed to_block none (blocks_from block n) ≡ gaps

  FindsOpen : ℕ → ℕ → Type 0
  FindsOpen block n =
      (g : Gap) (rest : List Gap)
      → Agrees processed (g ∷ rest) block
      → g.start < block
      → block ≤ suc g.end
      → AreGaps g.start to_block (g ∷ rest)
      → scan processed to_block (some g.start) (blocks_from block n) ≡ g ∷ rest

  no_gap_left :
      (block : ℕ) (gaps : List Gap) → to_block < block → AreGaps block to_block gaps → gaps ≡ []
  no_gap_left block [] h a = refl
  no_gap_left block (g ∷ rest) h a = absurd (omega arith)

  FindsClosed-end : (block : ℕ) → suc to_block ≡ block + 0 → FindsClosed block 0
  unfolding FindsClosed scan
  FindsClosed-end block e gaps a k = sym (no_gap_left block gaps (omega arith) k)

  FindsOpen-end : (block : ℕ) → suc to_block ≡ block + 0 → FindsOpen block 0
  unfolding FindsOpen scan
  FindsOpen-end block e g rest a h l k =
      let f : to_block ≡ g.end = omega arith in
      let r : rest ≡ [] = no_gap_left (suc (suc g.end)) rest (omega arith) k.3 in rw (f, r) refl

  FindsClosed-step :
      (block n : ℕ)
      → FindsClosed (suc block) n
      → FindsOpen (suc block) n
      → FindsClosed block (suc n)
  unfolding FindsClosed FindsOpen scan Agrees
  FindsClosed-step block n closed opened [] a k =
      rw (a block (omega arith)) (closed [] (Agrees-later processed [] block a) tt)
  FindsClosed-step block n closed opened (g ∷ rest) a k = elim (Bool-cases (block == g.start)) [
    | inl y ↦
        let same : block ≡ g.start = ground arith in
        let p : processed block ≡ false = ground (arith, a block (omega arith)) in
        rw p (
          subst
            (λ start. scan processed to_block (some start) (blocks_from (suc block) n) ≡ g ∷ rest)
            (sym same)
            (opened g rest (Agrees-later processed (g ∷ rest) block a) (omega arith) (omega arith)
              (omega arith, k.1, k.2, k.3)))
    | inr z ↦
        let before : block < g.start = ground arith in
        let p : processed block ≡ true =
          ground (
            arith,
            a block (omega arith),
            covers_below (suc (suc g.end)) to_block block rest k.3,
          ) in
        rw p (
          closed (g ∷ rest) (Agrees-later processed (g ∷ rest) block a)
            (omega arith, k.1, k.2, k.3))
  ]

  FindsOpen-step :
      (block n : ℕ) → FindsClosed (suc block) n → FindsOpen (suc block) n → FindsOpen block (suc n)
  unfolding FindsClosed FindsOpen scan Agrees
  FindsOpen-step block n closed opened g rest a h l k = elim (Bool-cases (leb block g.end)) [
    | inl y ↦
        let p : processed block ≡ false = ground (arith, a block (omega arith)) in
        rw p
          (opened g rest (Agrees-later processed (g ∷ rest) block a) (omega arith) (ground arith) k)
    | inr z ↦
        let f : block ≡ suc g.end = ground arith in
        let p : processed block ≡ true =
          ground (
            arith,
            a block (omega arith),
            covers_below (suc (suc g.end)) to_block block rest k.3,
          ) in
        let b : block - 1 ≡ g.end = omega arith in
        rw (p, b)
          (ap (λ (l : List Gap). g ∷ l)
            (closed rest
              (Agrees-rest processed g rest (suc block) (omega arith)
                (Agrees-later processed (g ∷ rest) block a))
              (AreGaps-lower (suc block) (suc (suc g.end)) to_block rest (omega arith) k.3)))
  ]

  finds : (n block : ℕ) → suc to_block ≡ block + n → FindsClosed block n × FindsOpen block n
  finds zero block e = (FindsClosed-end block e, FindsOpen-end block e)
  finds (suc n) block e =
      let (c, o) = finds n (suc block) (omega arith) in
      (FindsClosed-step block n c o, FindsOpen-step block n c o)

Agrees-with_itself : (gaps : List Gap) (block : ℕ) → Agrees (λ b. not (covers gaps b)) gaps block
unfolding Agrees
Agrees-with_itself gaps block c h = refl

-- Gaps of a range, none empty, ascending and none next to another, are what `find_gaps` finds when
-- exactly the other blocks are processed.
pub find_gaps_roundtrip :
    (from_block to_block : ℕ) (gaps : List Gap)
    → AreGaps from_block to_block gaps
    → find_gaps from_block to_block (λ block. not (covers gaps block)) ≡ gaps
unfolding find_gaps scan FindsClosed
find_gaps_roundtrip from_block to_block gaps a = elim (Bool-cases (leb from_block (suc to_block))) [
  | inl y ↦
      (finds (λ block. not (covers gaps block)) to_block (suc to_block - from_block) from_block
          (ground arith)).0
        gaps (Agrees-with_itself gaps from_block) a
  | inr z ↦
      let e : suc to_block - from_block ≡ 0 = ground arith in
      rw (e, no_gap_left (λ block. true) to_block from_block gaps (ground arith) a) refl
]
