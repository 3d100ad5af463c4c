-- ===== src/ChainClient.antt =====
-- _internal/providers/bittensor_client.py: `BittensorConnectionClient`, which keeps its connections.
--
-- A connection is a number. What the bittensor client library answers is a parameter of each call: the
-- connection that it opens, and what a read gives; both may raise, a timeout included. A ledger beside
-- the client lists the connections that were opened, and those whose `close` was called; an error in
-- such a call is logged. The setters of the two properties serve tests.
pub mod Cache
pub mod Leaks
use abstract_block_dumper.Prelude.{
  ℕ, ◌-◌, Bool, true, false, Option, none, some, List, ◌∷◌, [], ltb, if◌then◌else◌, Result,
  returned, raises,
}
use abstract_block_dumper.Dispatch.{archive_block_threshold}

-- The fields of `BittensorConnectionClient` that change.
pub record Client : Type 0 where
  pub subtensor : Option ℕ
  pub archive_subtensor : Option ℕ
  pub current_block_cache : Option ℕ
  pub rpc_substrate : Option ℕ
  pub has_rpc_loop : Bool

pub record Ledger : Type 0 where
  pub opened : List ℕ
  pub closed : List ℕ

abbrev pub Connected : Type 0
Connected = Client × Ledger

-- `__init__`
abbrev pub new_client : Connected
new_client = (
  record {
    subtensor = none;
    archive_subtensor = none;
    current_block_cache = none;
    rpc_substrate = none;
    has_rpc_loop = false;
  },
  record { opened = []; closed = [] },
)

abbrev pub log_opened : ℕ → Ledger → Ledger
log_opened n l = record l { opened = n ∷ l.opened }

abbrev pub log_closed : Option ℕ → Ledger → Ledger
log_closed none l = l
log_closed (some n) l = record l { closed = n ∷ l.closed }

-- A property that opens its connection when it is first read.
abbrev open_if_none : (ℕ → Client → Client) → Connected → Option ℕ → Result ℕ → Connected × Result ℕ
open_if_none keep (c, l) (some n) answer = ((c, l), returned n)
open_if_none keep (c, l) none raises = ((c, l), raises)
open_if_none keep (c, l) none (returned n) = ((keep n c, log_opened n l), returned n)

-- `subtensor`
unfoldable pub get_subtensor : Connected → Result ℕ → Connected × Result ℕ
get_subtensor (c, l) answer =
    open_if_none (λ n c. record c { subtensor = some n }) (c, l) c.subtensor answer

-- `archive_subtensor`
unfoldable pub get_archive_subtensor : Connected → Result ℕ → Connected × Result ℕ
get_archive_subtensor (c, l) answer =
    open_if_none (λ n c. record c { archive_subtensor = some n }) (c, l) c.archive_subtensor answer

-- `_close_rpc_substrate`: the call of `close` runs on the client's event loop.
abbrev close_rpc_of : Connected → Option ℕ → Connected
close_rpc_of (c, l) none = (c, l)
close_rpc_of (c, l) (some n) =
    (record c { rpc_substrate = none; has_rpc_loop = true }, log_closed (some n) l)

unfoldable pub close_rpc_substrate : Connected → Connected
close_rpc_substrate (c, l) = close_rpc_of (c, l) c.rpc_substrate

-- `close`
unfoldable pub close : Connected → Connected
unfolding close_rpc_substrate
close st =
    let (c, l) = close_rpc_substrate st in
    (
      record c {
        has_rpc_loop = false;
        subtensor = none;
        archive_subtensor = none;
        current_block_cache = none;
      },
      log_closed c.archive_subtensor (log_closed c.subtensor l),
    )

-- `_connected_rpc_substrate`: the endpoint is the subtensor's.
abbrev connect_rpc : Connected × Result ℕ → Result ℕ → Connected × Result ℕ
connect_rpc (st, raises) connected = (st, raises)
connect_rpc (st, returned endpoint) raises = (st, raises)
connect_rpc ((c, l), returned endpoint) (returned n) =
    ((record c { rpc_substrate = some n }, log_opened n l), returned n)

abbrev connected_rpc_of : Connected → Option ℕ → Result ℕ → Result ℕ → Connected × Result ℕ
connected_rpc_of st (some n) answer connected = (st, returned n)
connected_rpc_of st none answer connected = connect_rpc (get_subtensor st answer) connected

unfoldable pub connected_rpc_substrate : Connected → Result ℕ → Result ℕ → Connected × Result ℕ
unfolding get_subtensor
connected_rpc_substrate (c, l) answer connected =
    connected_rpc_of (c, l) c.rpc_substrate answer connected

-- `_run_rpc(_read_finalized_block_number())`
abbrev pub read_number : Connected × Result ℕ → Result ℕ → Connected × Result ℕ
read_number (st, raises) number = (st, raises)
read_number (st, returned n) number = (st, number)

unfoldable pub read_finalized : Connected → Result ℕ → Result ℕ → Result ℕ → Connected × Result ℕ
unfolding connected_rpc_substrate
read_finalized (c, l) answer connected number =
    read_number (connected_rpc_substrate (record c { has_rpc_loop = true }, l) answer connected)
      number

-- The handler of `get_block`: a connection whose read failed is dropped.
abbrev pub drop_failed : Connected × Result ℕ → Connected × Result ℕ
drop_failed (st, returned n) = (st, returned n)
drop_failed (st, raises) = (close_rpc_substrate st, raises)

-- `get_block(finalized=True)`
unfoldable pub get_finalized_block :
    Connected → Result ℕ → Result ℕ → Result ℕ → Connected × Result ℕ
unfolding read_finalized close_rpc_substrate
get_finalized_block st answer connected number =
    drop_failed (read_finalized st answer connected number)

-- `get_block()`: `block` is what the read of the connection's current block gives.
unfoldable pub get_block : Connected → Result ℕ → Result ℕ → Connected × Result ℕ
unfolding get_subtensor
get_block st answer block = read_number (get_subtensor st answer) block

-- `get_subtensor_for_block`, with the head that its cache holds.
unfoldable pub choose_subtensor : Connected → ℕ → ℕ → Result ℕ → Result ℕ → Connected × Result ℕ
unfolding get_subtensor get_archive_subtensor
choose_subtensor st head block_number answer archive_answer =
    if ltb archive_block_threshold (head - block_number)
    then get_archive_subtensor st archive_answer
    else get_subtensor st answer

abbrev pub fill_cache : Connected × Result ℕ → ℕ → Result ℕ → Result ℕ → Connected × Result ℕ
fill_cache (st, raises) block_number answer archive_answer = (st, raises)
fill_cache ((c, l), returned head) block_number answer archive_answer =
    choose_subtensor (record c { current_block_cache = some head }, l) head block_number answer
      archive_answer

abbrev pub for_block_at :
    Connected → Option ℕ → ℕ → Result ℕ → Result ℕ → Result ℕ → Connected × Result ℕ
for_block_at st (some head) block_number answer block archive_answer =
    choose_subtensor st head block_number answer archive_answer
for_block_at st none block_number answer block archive_answer =
    fill_cache (get_block st answer block) block_number answer archive_answer

unfoldable pub get_subtensor_for_block :
    Connected → ℕ → Result ℕ → Result ℕ → Result ℕ → Connected × Result ℕ
unfolding choose_subtensor get_block
get_subtensor_for_block (c, l) block_number answer block archive_answer =
    for_block_at (c, l) c.current_block_cache block_number answer block archive_answer

-- The calls of the client, each with what the library answers in it.
pub data Call : Type 0 where
  head_read : (answer block : Result ℕ) → Call
  finalized_read : (answer connected number : Result ℕ) → Call
  subtensor_read archive_read : (answer : Result ℕ) → Call
  block_read : (block_number : ℕ) → (answer block archive_answer : Result ℕ) → Call
  closing refreshing : Call

unfoldable pub run_call : Connected → Call → Connected
unfolding get_block get_finalized_block get_subtensor get_archive_subtensor get_subtensor_for_block
    close
run_call st (head_read answer block) = (get_block st answer block).0
run_call st (finalized_read answer connected number) =
    (get_finalized_block st answer connected number).0
run_call st (subtensor_read answer) = (get_subtensor st answer).0
run_call st (archive_read answer) = (get_archive_subtensor st answer).0
run_call st (block_read block_number answer block archive_answer) =
    (get_subtensor_for_block st block_number answer block archive_answer).0
run_call st closing = close st
run_call st refreshing = close st

unfoldable pub run_calls : Connected → List Call → Connected
unfolding run_call
run_calls st [] = st
run_calls st (call ∷ rest) = run_calls (run_call st call) rest
