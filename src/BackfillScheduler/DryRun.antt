-- ===== src/BackfillScheduler/DryRun.antt =====
-- _internal/services/backfill_scheduler.py: the dry run, which reads the table and counts. Nothing
-- stops it; a set of block numbers is the list of its members.
pub mod Counts
pub mod Sets
pub mod Laws
use abstract_block_dumper.Prelude.{
  ℕ, suc, ◌+◌, ◌-◌, String, Bool, true, false, not, ◌&&◌, ◌||◌, Option, none, some, List, ◌∷◌, [],
  ◌==◌, str_eq, if◌then◌else◌, length,
}
use abstract_block_dumper.Attempt.Database.{Database}
use abstract_block_dumper.Backfill.{block_range}
use abstract_block_dumper.BlockTask.{executed_block_numbers}
use abstract_block_dumper.Registry.Items.{RegistryItem, match_condition, get_execution_args}

-- `executed_blocks_cache`: the blocks of a path and an argument set, none where there is no entry.
abbrev pub Cache : Type 0
Cache = String → String → ℕ → Bool

unfoldable pub no_entries : Cache
no_entries path args block = false

unfoldable pub put : Cache → String → String → (ℕ → Bool) → Cache
put cache path args blocks path' args' =
    if str_eq path path' && str_eq args args' then blocks else cache path' args'

-- The condition answered True.
abbrev pub matches : Option Bool → Bool
matches none = false
matches (some answer) = answer

-- The task is to be submitted for the block.
unfoldable pub is_due : Cache → RegistryItem → String → ℕ → Bool
is_due cache item args block =
    not (cache item.executable_path args block) && matches (match_condition item block args)

pub record DryRunStats : Type 0 where
  pub total_blocks : ℕ
  pub already_processed : ℕ
  pub blocks_needing_tasks : ℕ
  pub estimated_tasks : ℕ

-- `stats.estimated_tasks` and `blocks_with_tasks`
pub record Preview : Type 0 where
  pub estimated : ℕ
  pub blocks : List ℕ

abbrev pub member : ℕ → List ℕ → Bool
member b [] = false
member b (c ∷ rest) = (b == c) || member b rest

abbrev pub add : ℕ → List ℕ → List ℕ
add b blocks = if member b blocks then blocks else b ∷ blocks

unfoldable pub preview_block : Bool → ℕ → Preview → Preview
preview_block due block v =
    if due then record { estimated = suc v.estimated; blocks = add block v.blocks } else v

unfoldable pub preview_blocks : Cache → RegistryItem → String → List ℕ → Preview → Preview
unfolding preview_block is_due
preview_blocks cache item args [] v = v
preview_blocks cache item args (block ∷ rest) v =
    preview_blocks cache item args rest (preview_block (is_due cache item args block) block v)

unfoldable pub preview_args : Cache → RegistryItem → List ℕ → List String → Preview → Preview
unfolding preview_blocks
preview_args cache item blocks [] v = v
preview_args cache item blocks (args ∷ rest) v =
    preview_args cache item blocks rest (preview_blocks cache item args blocks v)

unfoldable pub preview_items : Cache → List ℕ → List RegistryItem → Preview → Preview
unfolding preview_args
preview_items cache blocks [] v = v
preview_items cache blocks (item ∷ rest) v =
    preview_items cache blocks rest (preview_args cache item blocks (get_execution_args item) v)

unfoldable pub summary : ℕ → Preview → DryRunStats
summary total v = record {
  total_blocks = total;
  already_processed = total - length v.blocks;
  blocks_needing_tasks = length v.blocks;
  estimated_tasks = v.estimated;
}

module _ (db : Database) where
  open db use {Table}

  unfoldable pub prefetch_args : Table → ℕ → ℕ → RegistryItem → List String → Cache → Cache
  unfolding put
  prefetch_args t from_block to_block item [] cache = cache
  prefetch_args t from_block to_block item (args ∷ rest) cache =
      prefetch_args t from_block to_block item rest (
        put cache item.executable_path args
          (executed_block_numbers db t item.executable_path args from_block (suc to_block)))

  unfoldable pub prefetch_items : Table → ℕ → ℕ → List RegistryItem → Cache → Cache
  unfolding prefetch_args
  prefetch_items t from_block to_block [] cache = cache
  prefetch_items t from_block to_block (item ∷ rest) cache =
      prefetch_items t from_block to_block rest
        (prefetch_args t from_block to_block item (get_execution_args item) cache)

  -- `_prefetch_executed_blocks`, from the table `t`
  unfoldable pub prefetch_executed_blocks : Table → ℕ → ℕ → List RegistryItem → Cache
  unfolding prefetch_items no_entries
  prefetch_executed_blocks t from_block to_block items =
      prefetch_items t from_block to_block items no_entries

  -- `_run_dry_run`
  unfoldable pub run_dry_run : Table → List RegistryItem → ℕ → ℕ → DryRunStats
  unfolding prefetch_executed_blocks preview_items summary
  run_dry_run t items from_block to_block = summary (suc to_block - from_block) (
      preview_items (prefetch_executed_blocks t from_block to_block items)
        (block_range from_block to_block) items (record { estimated = 0; blocks = [] }))
