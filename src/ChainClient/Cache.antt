-- ===== src/ChainClient/Cache.antt =====
-- providers/bittensor_client.py: which network `get_subtensor_for_block` chooses.
use abstract_block_dumper.Prelude.{
  ℕ, ◌≡◌, refl, sym, ap, ◌∙◌, subst, Bool, true, false, Option, none, some, List, ◌∷◌, [], ◌-◌, ltb,
  Result, returned, raises, arith, Bool-cases, inl, inr, All,
}
use abstract_block_dumper.Dispatch.{archive_block_threshold}
use abstract_block_dumper.ChainClient.{
  Connected, get_subtensor, get_archive_subtensor, close_rpc_substrate, connected_rpc_substrate,
  read_finalized, drop_failed, get_finalized_block, get_block, choose_subtensor,
  get_subtensor_for_block, read_number, for_block_at, Call, head_read, finalized_read,
  subtensor_read, archive_read, block_read, closing, refreshing, run_call, run_calls,
}

abbrev cache : Connected → Option ℕ
cache st = st.0.current_block_cache

-- A call that leaves the connections open.
abbrev pub IsNoClose : Call → Type 0
IsNoClose closing = ⊥
IsNoClose refreshing = ⊥
IsNoClose _ = Unit {0}

get_subtensor-cache :
    (st : Connected) (answer : Result ℕ) → cache (get_subtensor st answer).0 ≡ cache st
unfolding get_subtensor
get_subtensor-cache (c, l) answer = ground arith

get_archive-cache :
    (st : Connected) (answer : Result ℕ) → cache (get_archive_subtensor st answer).0 ≡ cache st
unfolding get_archive_subtensor
get_archive-cache (c, l) answer = ground arith

close_rpc-cache : (st : Connected) → cache (close_rpc_substrate st) ≡ cache st
unfolding close_rpc_substrate
close_rpc-cache (c, l) = ground arith

connected_rpc-cache :
    (st : Connected) (answer connected : Result ℕ)
    → cache (connected_rpc_substrate st answer connected).0 ≡ cache st
unfolding connected_rpc_substrate get_subtensor
connected_rpc-cache (c, l) answer connected = ground arith

read_number-cache :
    (x : Connected × Result ℕ) (number : Result ℕ) → cache (read_number x number).0 ≡ cache x.0
read_number-cache (st, raises) number = refl
read_number-cache (st, returned n) number = refl

drop_failed-cache : (x : Connected × Result ℕ) → cache (drop_failed x).0 ≡ cache x.0
drop_failed-cache (st, returned n) = refl
drop_failed-cache (st, raises) = close_rpc-cache st

choose-cache :
    (st : Connected) (head block_number : ℕ) (answer archive_answer : Result ℕ)
    → cache (choose_subtensor st head block_number answer archive_answer).0 ≡ cache st
unfolding choose_subtensor
choose-cache st head block_number answer archive_answer =
    elim (Bool-cases (ltb archive_block_threshold (head - block_number))) [
      | inl y ↦ rw y (get_archive-cache st archive_answer)
      | inr n ↦ rw n (get_subtensor-cache st answer)
    ]

finalized-cache :
    (st : Connected) (answer connected number : Result ℕ)
    → cache (get_finalized_block st answer connected number).0 ≡ cache st
unfolding get_finalized_block read_finalized
finalized-cache (c, l) answer connected number =
    let started : Connected = (record c { has_rpc_loop = true }, l) in
    drop_failed-cache (read_number (connected_rpc_substrate started answer connected) number)
    ∙ read_number-cache (connected_rpc_substrate started answer connected) number
    ∙ connected_rpc-cache started answer connected

-- With a head in the cache, that head decides.
for_block-cached :
    (st : Connected) (o : Option ℕ) (head block_number : ℕ) (answer block archive_answer : Result ℕ)
    → o ≡ some head
    → for_block_at st o block_number answer block archive_answer
      ≡ choose_subtensor st head block_number answer archive_answer
for_block-cached st o head block_number answer block archive_answer e =
    ap (λ o. for_block_at st o block_number answer block archive_answer) e

run_call-cache :
    (st : Connected) (head : ℕ) (call : Call)
    → cache st ≡ some head
    → IsNoClose call
    → cache (run_call st call) ≡ some head
unfolding run_call get_block get_subtensor_for_block
run_call-cache st head (head_read answer block) e n =
    read_number-cache (get_subtensor st answer) block ∙ get_subtensor-cache st answer ∙ e
run_call-cache st head (finalized_read answer connected number) e n =
    finalized-cache st answer connected number ∙ e
run_call-cache st head (subtensor_read answer) e n = get_subtensor-cache st answer ∙ e
run_call-cache st head (archive_read answer) e n = get_archive-cache st answer ∙ e
run_call-cache (c, l) head (block_read block_number answer block archive_answer) e n =
    ap (λ x. cache x.0)
      (for_block-cached (c, l) c.current_block_cache head block_number answer block archive_answer
        e)
    ∙ choose-cache (c, l) head block_number answer archive_answer
    ∙ e
run_call-cache st head closing e n = absurd n
run_call-cache st head refreshing e n = absurd n

run_calls-cache :
    (st : Connected) (head : ℕ) (calls : List Call)
    → cache st ≡ some head
    → All IsNoClose calls
    → cache (run_calls st calls) ≡ some head
unfolding run_calls
run_calls-cache st head [] e h = e
run_calls-cache st head (call ∷ rest) e (n, h) =
    run_calls-cache (run_call st call) head rest (run_call-cache st head call e n) h

-- The connection that a call gave is the client's connection to the archive network, or to the
-- regular one; a call that raised gave none.
abbrev pub IsServedBy : Bool → Connected × Result ℕ → Type 0
IsServedBy archival (st, raises) = Unit {0}
IsServedBy true (st, returned n) = st.0.archive_subtensor ≡ some n
IsServedBy false (st, returned n) = st.0.subtensor ≡ some n

archive-IsServed :
    (st : Connected) (o : Option ℕ) (answer : Result ℕ)
    → st.0.archive_subtensor ≡ o
    → IsServedBy true (get_archive_subtensor st answer)
unfolding get_archive_subtensor
archive-IsServed (c, l) (some n) answer e = rw (get_archive_subtensor, e) refl
archive-IsServed (c, l) none raises e = rw (get_archive_subtensor, e) tt
archive-IsServed (c, l) none (returned n) e = rw (get_archive_subtensor, e) refl

regular-IsServed :
    (st : Connected) (o : Option ℕ) (answer : Result ℕ)
    → st.0.subtensor ≡ o
    → IsServedBy false (get_subtensor st answer)
unfolding get_subtensor
regular-IsServed (c, l) (some n) answer e = rw (get_subtensor, e) refl
regular-IsServed (c, l) none raises e = rw (get_subtensor, e) tt
regular-IsServed (c, l) none (returned n) e = rw (get_subtensor, e) refl

choose-IsServed :
    (st : Connected) (head block_number : ℕ) (answer archive_answer : Result ℕ)
    → IsServedBy
        (ltb archive_block_threshold (head - block_number))
        (choose_subtensor st head block_number answer archive_answer)
unfolding choose_subtensor
choose-IsServed st head block_number answer archive_answer =
    elim (Bool-cases (ltb archive_block_threshold (head - block_number))) [
      | inl y ↦ rw y (archive-IsServed st st.0.archive_subtensor archive_answer refl)
      | inr n ↦ rw n (regular-IsServed st st.0.subtensor answer refl)
    ]

-- Once a head is in the cache, and until the client is closed or refreshed, that head decides,
-- whatever is called meanwhile and wherever the chain is now: a call that gives a connection gives the
-- one to the archive network for a block more than 300 blocks behind the head in the cache, and the
-- regular one for any other block.
pub for_block-IsServed :
    (st : Connected) (head : ℕ) (calls : List Call) (block_number : ℕ)
    (answer block archive_answer : Result ℕ)
    → cache st ≡ some head
    → All IsNoClose calls
    → IsServedBy
        (ltb archive_block_threshold (head - block_number))
        (get_subtensor_for_block (run_calls st calls) block_number answer block archive_answer)
unfolding get_subtensor_for_block
for_block-IsServed st head calls block_number answer block archive_answer e h =
    let later = run_calls st calls in
    subst (IsServedBy (ltb archive_block_threshold (head - block_number)))
      (sym (
        for_block-cached later (cache later) head block_number answer block archive_answer
          (run_calls-cache st head calls e h)))
      (choose-IsServed later head block_number answer archive_answer)
