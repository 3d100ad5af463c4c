-- ===== src/BackfillScheduler/DryRun/Laws.antt =====
-- _internal/services/backfill_scheduler.py: what the dry run counts.
use abstract_block_dumper.Prelude.{
  ℕ, suc, ◌-◌, ◌≡◌, not, List, ◌∷◌, [], ltb, length, keep, All, arith, ◌∙◌, sym,
}
use abstract_block_dumper.Attempt.Database.{Database}
use abstract_block_dumper.Backfill.{blocks_from, block_range}
use abstract_block_dumper.Gaps.Laws.{length-blocks_from}
use abstract_block_dumper.BackfillScheduler.DryRun.{
  Cache, DryRunStats, Preview, member, preview_items, summary, prefetch_executed_blocks,
  run_dry_run,
}
use abstract_block_dumper.Registry.Items.{RegistryItem}
use abstract_block_dumper.BackfillScheduler.DryRun.Counts.{
  due_tasks, sum_over, preview_items-estimated,
}
use abstract_block_dumper.BackfillScheduler.DryRun.Sets.{
  occurrences, once_each, empty_set, member-preview_items, preview_items-IsSetIn, keep-agree,
  keep-complement, occurs-member,
}

-- What a dry run counts, from the submissions that are due at each block.
pub record IsPreview (due : ℕ → ℕ) (blocks : List ℕ) (stats : DryRunStats) : Type 0 where
  pub all_blocks : stats.total_blocks ≡ length blocks
  pub needing : stats.blocks_needing_tasks ≡ length (keep (λ b. ltb 0 (due b)) blocks)
  pub others : stats.already_processed ≡ length (keep (λ b. not (ltb 0 (due b))) blocks)
  pub tasks : stats.estimated_tasks ≡ sum_over due blocks

module _ (cache : Cache) (items : List RegistryItem) (from n : ℕ) where
  abbrev seen : Preview
  seen = preview_items cache (blocks_from from n) items (record { estimated = 0; blocks = [] })

  seen_members :
      (bs : List ℕ)
      → All (λ b. occurrences b (blocks_from from n) ≡ 1) bs
      → All (λ b. member b seen.blocks ≡ ltb 0 (due_tasks cache items b)) bs
  seen_members [] a = tt
  seen_members (b ∷ rest) a = (
    ground (
      arith,
      member-preview_items b cache (blocks_from from n) items
          (record { estimated = 0; blocks = [] }),
      occurs-member b (blocks_from from n) a.0,
    ),
    seen_members rest a.1,
  )

  seen_count :
      length seen.blocks ≡ length (keep (λ b. ltb 0 (due_tasks cache items b)) (blocks_from from n))
  seen_count =
      let once = once_each from n from n (omega arith) (omega arith) in
      preview_items-IsSetIn cache (blocks_from from n) (blocks_from from n) items
        (record { estimated = 0; blocks = [] }) once (empty_set (blocks_from from n))
      ∙ keep-agree (λ b. member b seen.blocks) (λ b. ltb 0 (due_tasks cache items b))
          (blocks_from from n) (seen_members (blocks_from from n) once)

-- The dry run counts each block of the range once: as one that needs tasks, if some task and argument
-- set is due there (not executed, with a condition that answers True), and as already processed
-- otherwise, executed or not. The estimate is the number of submissions due over all blocks.
pub run_dry_run-IsPreview :
    (db : Database) (t : db.Table) (items : List RegistryItem) (from_block to_block : ℕ)
    → IsPreview
        (due_tasks (prefetch_executed_blocks db t from_block to_block items) items)
        (block_range from_block to_block)
        (run_dry_run db t items from_block to_block)
unfolding run_dry_run summary
run_dry_run-IsPreview db t items from_block to_block =
    let cache = prefetch_executed_blocks db t from_block to_block items in
    let range = block_range from_block to_block in
    let total = length-blocks_from from_block (suc to_block - from_block) in
    let needing = seen_count cache items from_block (suc to_block - from_block) in
    record {
      all_blocks = sym total;
      needing = needing;
      others =
          omega
            (arith, total, needing, keep-complement (λ b. ltb 0 (due_tasks cache items b)) range);
      tasks =
          preview_items-estimated cache range items (record { estimated = 0; blocks = [] })
          ∙ omega arith;
    }
