-- ===== src/BackfillScheduler/DryRun/Sets.antt =====
-- _internal/services/backfill_scheduler.py: the set of blocks that need tasks holds each once.
use abstract_block_dumper.Prelude.{
  ℕ, zero, suc, ◌+◌, ◌≤◌, ◌≡◌, refl, String, Bool, true, false, not, ◌&&◌, ◌||◌, List, ◌∷◌, [],
  ◌==◌, ltb, leb, if◌then◌else◌, length, keep, All, Bool-cases, ==-refl, inl, inr, arith, ap, ◌∙◌,
}
use abstract_block_dumper.Backfill.{blocks_from}
use abstract_block_dumper.BackfillScheduler.DryRun.{
  Cache, is_due, Preview, member, add, preview_block, preview_blocks, preview_args, preview_items,
}
use abstract_block_dumper.Registry.Items.{RegistryItem, get_execution_args}
use abstract_block_dumper.BackfillScheduler.DryRun.Counts.{one_for, due_args, due_tasks}

abbrev pub occurrences : ℕ → List ℕ → ℕ
occurrences b [] = 0
occurrences b (c ∷ rest) = one_for (b == c) + occurrences b rest

-- The members of a set among some blocks.
abbrev pub members_in : List ℕ → List ℕ → List ℕ
members_in range blocks = keep (λ c. member c blocks) range

occurrences-blocks_from :
    (b from n : ℕ)
    → occurrences b (blocks_from from n) ≡ (if leb from b && ltb b (from + n) then 1 else 0)
occurrences-blocks_from b from zero = ground arith
occurrences-blocks_from b from (suc n) = ground (arith, occurrences-blocks_from b (suc from) n)

pub once_each :
    (low m from n : ℕ)
    → low ≤ from
    → from + n ≤ low + m
    → All (λ b. occurrences b (blocks_from low m) ≡ 1) (blocks_from from n)
once_each low m from zero h k = tt
once_each low m from (suc n) h k = (
  ground (arith, occurrences-blocks_from from low m),
  once_each low m (suc from) n (omega arith) (omega arith),
)

pub length-keep :
    (p : ℕ → Bool) (b : ℕ) (bs : List ℕ)
    → length (keep p (b ∷ bs)) ≡ one_for (p b) + length (keep p bs)
length-keep p b bs = elim (Bool-cases (p b)) [
  | inl y ↦ rw y (omega arith)
  | inr n ↦ rw n (omega arith)
]

-- A new member counts where it occurs.
one_for-member :
    (b c : ℕ) (blocks : List ℕ)
    → member b blocks ≡ false
    → one_for (member c (b ∷ blocks)) ≡ one_for (b == c) + one_for (member c blocks)
one_for-member b c blocks h = elim (Bool-cases (b == c)) [
  | inl y ↦ let same : b ≡ c = ground arith in rw (← same) (rw h (rw ==-refl refl))
  | inr n ↦ let other : (c == b) ≡ false = ground arith in rw (n, other) (omega arith)
]

members_in-cons :
    (b : ℕ) (blocks range : List ℕ)
    → member b blocks ≡ false
    → length (members_in range (b ∷ blocks))
      ≡ length (members_in range blocks) + occurrences b range
members_in-cons b blocks [] h = omega arith
members_in-cons b blocks (c ∷ range) h = omega (
  arith,
  length-keep (λ c. member c (b ∷ blocks)) c range,
  length-keep (λ c. member c blocks) c range,
  members_in-cons b blocks range h,
  one_for-member b c blocks h,
)

-- The list holds blocks of the range only, each once.
abbrev pub IsSetIn : List ℕ → List ℕ → Type 0
IsSetIn range blocks = length blocks ≡ length (members_in range blocks)

pub empty_set : (range : List ℕ) → IsSetIn range []
empty_set [] = refl
empty_set (b ∷ range) = empty_set range

add-IsSetIn :
    (b : ℕ) (range blocks : List ℕ)
    → occurrences b range ≡ 1
    → IsSetIn range blocks
    → IsSetIn range (add b blocks)
add-IsSetIn b range blocks o k = elim (Bool-cases (member b blocks)) [
  | inl y ↦ rw y k
  | inr n ↦ rw n (omega (arith, members_in-cons b blocks range n))
]

member-add : (c b : ℕ) (blocks : List ℕ) → member c (add b blocks) ≡ ((c == b) || member c blocks)
member-add c b blocks = elim (Bool-cases (member b blocks)) [
  | inr n ↦ rw n refl
  | inl y ↦ elim (Bool-cases (c == b)) [
    | inl e ↦ let same : c ≡ b = ground arith in rw (y, e) (rw same y)
    | inr z ↦ rw (y, z) refl
  ]
]

member-preview_block :
    (c b : ℕ) (due : Bool) (v : Preview)
    → member c (preview_block due b v).blocks ≡ (((c == b) && due) || member c v.blocks)
unfolding preview_block
member-preview_block c b true v = member-add c b v.blocks ∙ ground arith
member-preview_block c b false v = ground arith

member-preview_blocks :
    (c : ℕ) (cache : Cache) (item : RegistryItem) (args : String) (bs : List ℕ) (v : Preview)
    → member c (preview_blocks cache item args bs v).blocks
      ≡ ((member c bs && is_due cache item args c) || member c v.blocks)
unfolding preview_blocks
member-preview_blocks c cache item args [] v = refl
member-preview_blocks c cache item args (b ∷ rest) v =
    member-preview_blocks c cache item args rest (preview_block (is_due cache item args b) b v)
    ∙ elim (Bool-cases (c == b)) [
      | inl y ↦
          let same : c ≡ b = ground arith in
          let due : is_due cache item args c ≡ is_due cache item args b =
            ap (is_due cache item args) same in
          ground (arith, member-preview_block c b (is_due cache item args b) v, due)
      | inr n ↦ ground (arith, member-preview_block c b (is_due cache item args b) v)
    ]

member-preview_args :
    (c : ℕ) (cache : Cache) (item : RegistryItem) (bs : List ℕ) (arg_sets : List String)
    (v : Preview)
    → member c (preview_args cache item bs arg_sets v).blocks
      ≡ ((member c bs && ltb 0 (due_args cache item c arg_sets)) || member c v.blocks)
unfolding preview_args
member-preview_args c cache item bs [] v = ground arith
member-preview_args c cache item bs (args ∷ rest) v = ground (
  arith,
  member-preview_args c cache item bs rest (preview_blocks cache item args bs v),
  member-preview_blocks c cache item args bs v,
)

pub member-preview_items :
    (c : ℕ) (cache : Cache) (bs : List ℕ) (items : List RegistryItem) (v : Preview)
    → member c (preview_items cache bs items v).blocks
      ≡ ((member c bs && ltb 0 (due_tasks cache items c)) || member c v.blocks)
unfolding preview_items
member-preview_items c cache bs [] v = ground arith
member-preview_items c cache bs (item ∷ rest) v = ground (
  arith,
  member-preview_items c cache bs rest (preview_args cache item bs (get_execution_args item) v),
  member-preview_args c cache item bs (get_execution_args item) v,
)

preview_block-IsSetIn :
    (due : Bool) (b : ℕ) (range : List ℕ) (v : Preview)
    → occurrences b range ≡ 1
    → IsSetIn range v.blocks
    → IsSetIn range (preview_block due b v).blocks
unfolding preview_block
preview_block-IsSetIn true b range v o k = add-IsSetIn b range v.blocks o k
preview_block-IsSetIn false b range v o k = k

module _ (cache : Cache) (range : List ℕ) where
  preview_blocks-IsSetIn :
      (item : RegistryItem) (args : String) (bs : List ℕ) (v : Preview)
      → All (λ b. occurrences b range ≡ 1) bs
      → IsSetIn range v.blocks
      → IsSetIn range (preview_blocks cache item args bs v).blocks
  unfolding preview_blocks
  preview_blocks-IsSetIn item args [] v a k = k
  preview_blocks-IsSetIn item args (b ∷ rest) v a k =
      preview_blocks-IsSetIn item args rest _ a.1
        (preview_block-IsSetIn (is_due cache item args b) b range v a.0 k)

  preview_args-IsSetIn :
      (item : RegistryItem) (bs : List ℕ) (arg_sets : List String) (v : Preview)
      → All (λ b. occurrences b range ≡ 1) bs
      → IsSetIn range v.blocks
      → IsSetIn range (preview_args cache item bs arg_sets v).blocks
  unfolding preview_args
  preview_args-IsSetIn item bs [] v a k = k
  preview_args-IsSetIn item bs (args ∷ rest) v a k =
      preview_args-IsSetIn item bs rest _ a (preview_blocks-IsSetIn item args bs v a k)

  pub preview_items-IsSetIn :
      (bs : List ℕ) (items : List RegistryItem) (v : Preview)
      → All (λ b. occurrences b range ≡ 1) bs
      → IsSetIn range v.blocks
      → IsSetIn range (preview_items cache bs items v).blocks
  unfolding preview_items
  preview_items-IsSetIn bs [] v a k = k
  preview_items-IsSetIn bs (item ∷ rest) v a k =
      preview_items-IsSetIn bs rest _ a
        (preview_args-IsSetIn item bs (get_execution_args item) v a k)

-- Tests that agree on the members of a list keep as much of it.
pub keep-agree :
    (p q : ℕ → Bool) (bs : List ℕ)
    → All (λ b. p b ≡ q b) bs
    → length (keep p bs) ≡ length (keep q bs)
keep-agree p q [] a = refl
keep-agree p q (b ∷ rest) a =
    omega
      (arith, keep-agree p q rest a.1, length-keep p b rest, length-keep q b rest, ap one_for a.0)

pub keep-complement :
    (p : ℕ → Bool) (bs : List ℕ)
    → length (keep p bs) + length (keep (λ b. not (p b)) bs) ≡ length bs
keep-complement p [] = omega arith
keep-complement p (b ∷ rest) = elim (Bool-cases (p b)) [
  | inl y ↦ rw y (omega (arith, keep-complement p rest))
  | inr n ↦ rw n (omega (arith, keep-complement p rest))
]

pub occurs-member : (b : ℕ) (bs : List ℕ) → occurrences b bs ≡ 1 → member b bs ≡ true
occurs-member b [] o = absurd (omega arith)
occurs-member b (c ∷ rest) o = ground (arith, occurs-member b rest)
