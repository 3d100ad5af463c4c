-- ===== src/BackfillScheduler/DryRun/Counts.antt =====
-- _internal/services/backfill_scheduler.py: the estimate of a dry run is a sum over the blocks.
use abstract_block_dumper.Prelude.{
  ℕ, ◌+◌, ◌≡◌, refl, String, Bool, true, false, List, ◌∷◌, [], arith,
}
use abstract_block_dumper.BackfillScheduler.DryRun.{
  Cache, is_due, Preview, preview_block, preview_blocks, preview_args, preview_items,
}
use abstract_block_dumper.Registry.Items.{RegistryItem, get_execution_args}

abbrev pub one_for : Bool → ℕ
one_for true = 1
one_for false = 0

-- The argument sets that are due at a block.
abbrev pub due_args : Cache → RegistryItem → ℕ → List String → ℕ
due_args cache item block [] = 0
due_args cache item block (args ∷ rest) =
    one_for (is_due cache item args block) + due_args cache item block rest

-- The submissions that are due at a block.
abbrev pub due_tasks : Cache → List RegistryItem → ℕ → ℕ
due_tasks cache [] block = 0
due_tasks cache (item ∷ rest) block =
    due_args cache item block (get_execution_args item) + due_tasks cache rest block

abbrev pub sum_over : (ℕ → ℕ) → List ℕ → ℕ
sum_over f [] = 0
sum_over f (b ∷ rest) = f b + sum_over f rest

sum_over-add :
    (f g : ℕ → ℕ) (bs : List ℕ) → sum_over (λ b. f b + g b) bs ≡ sum_over f bs + sum_over g bs
sum_over-add f g [] = refl
sum_over-add f g (b ∷ rest) = omega (arith, sum_over-add f g rest)

sum_over-zero : (bs : List ℕ) → sum_over (λ b. 0) bs ≡ 0
sum_over-zero [] = refl
sum_over-zero (b ∷ rest) = omega (arith, sum_over-zero rest)

preview_block-estimated :
    (due : Bool) (b : ℕ) (v : Preview)
    → (preview_block due b v).estimated ≡ v.estimated + one_for due
unfolding preview_block
preview_block-estimated true b v = omega arith
preview_block-estimated false b v = omega arith

preview_blocks-estimated :
    (cache : Cache) (item : RegistryItem) (args : String) (bs : List ℕ) (v : Preview)
    → (preview_blocks cache item args bs v).estimated
      ≡ v.estimated + sum_over (λ b. one_for (is_due cache item args b)) bs
unfolding preview_blocks
preview_blocks-estimated cache item args [] v = omega arith
preview_blocks-estimated cache item args (b ∷ rest) v = omega (
  arith,
  preview_blocks-estimated cache item args rest (preview_block (is_due cache item args b) b v),
  preview_block-estimated (is_due cache item args b) b v,
)

preview_args-estimated :
    (cache : Cache) (item : RegistryItem) (bs : List ℕ) (arg_sets : List String) (v : Preview)
    → (preview_args cache item bs arg_sets v).estimated
      ≡ v.estimated + sum_over (λ b. due_args cache item b arg_sets) bs
unfolding preview_args
preview_args-estimated cache item bs [] v = omega (arith, sum_over-zero bs)
preview_args-estimated cache item bs (args ∷ rest) v = omega (
  arith,
  preview_args-estimated cache item bs rest (preview_blocks cache item args bs v),
  preview_blocks-estimated cache item args bs v,
  sum_over-add (λ b. one_for (is_due cache item args b)) (λ b. due_args cache item b rest) bs,
)

pub preview_items-estimated :
    (cache : Cache) (bs : List ℕ) (items : List RegistryItem) (v : Preview)
    → (preview_items cache bs items v).estimated ≡ v.estimated + sum_over (due_tasks cache items) bs
unfolding preview_items
preview_items-estimated cache bs [] v = omega (arith, sum_over-zero bs)
preview_items-estimated cache bs (item ∷ rest) v = omega (
  arith,
  preview_items-estimated cache bs rest (preview_args cache item bs (get_execution_args item) v),
  preview_args-estimated cache item bs (get_execution_args item) v,
  sum_over-add (λ b. due_args cache item b (get_execution_args item)) (due_tasks cache rest) bs,
)
