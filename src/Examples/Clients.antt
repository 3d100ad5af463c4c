-- ===== src/Examples/Clients.antt =====
-- Instances of the theorems on the chain client and the Celery queue tables.
use abstract_block_dumper.Prelude.{
  ◌-◌, ◌≡◌, refl, some, none, List, ◌∷◌, [], true, ltb, returned, raises, String, insert, lookup,
}
use abstract_block_dumper.CeleryConfig.{KombuQueue, Table, install_queues}
use abstract_block_dumper.CeleryConfig.Laws.{IsInstallation, install_queues-IsInstallation}
use abstract_block_dumper.ChainClient.{
  Call, Connected, head_read, finalized_read, archive_read, block_read, run_calls,
  get_subtensor_for_block,
}
use abstract_block_dumper.ChainClient.Cache.{IsServedBy, for_block-IsServed}

-- A read of each head, the second of the finalized one fails, and a read of an old block.
abbrev session : List Call
session =
    head_read (returned 1) (returned 1000)
    ∷ finalized_read raises (returned 2) (returned 990)
    ∷ finalized_read raises raises raises
    ∷ block_read 600 raises (returned 1001) (returned 3)
    ∷ []

-- The head in the cache is block 1001; block 990 is served by the regular network ever after.
abbrev cached : Connected
cached = (
  record {
    subtensor = some 1;
    archive_subtensor = some 3;
    current_block_cache = some 1001;
    rpc_substrate = none;
    has_rpc_loop = true;
  },
  record { opened = 3 ∷ 1 ∷ []; closed = [] },
)

abbrev meanwhile : List Call
meanwhile = head_read raises (returned 5000) ∷ archive_read raises ∷ []

for_block-IsServed_example :
    IsServedBy
      (ltb 300 (1001 - 990))
      (get_subtensor_for_block (run_calls cached meanwhile) 990 raises (returned 5000) raises)
for_block-IsServed_example =
    for_block-IsServed cached 1001 meanwhile 990 raises (returned 5000) raises refl (tt, (tt, tt))

-- What the broker is told is the text of the options.
abbrev told : KombuQueue → String
told q = q.options

-- The project's own queues: `live` with the policy's arguments, `backfill` with others.
abbrev project_queues : Table
project_queues =
    ("live", record { name = "live"; options = "ttl" })
    ∷ ("backfill", record { name = "backfill"; options = "priority" })
    ∷ []

abbrev definitions : List KombuQueue
definitions =
    record { name = "live"; options = "ttl" }
    ∷ record { name = "slow"; options = "ttl" }
    ∷ record { name = "backfill"; options = "ttl" }
    ∷ []

stops_at_backfill : (install_queues told project_queues definitions).1 ≡ raises
unfolding install_queues lookup insert
stops_at_backfill = refl

install_queues-IsInstallation_example :
    IsInstallation told project_queues definitions (install_queues told project_queues definitions)
install_queues-IsInstallation_example =
    install_queues-IsInstallation told project_queues definitions
