-- ===== src/Scheduler/Loop/Start.antt =====
-- services/scheduler.py: `TaskScheduler.start`, from the registered tasks to the cursors.
use abstract_block_dumper.Prelude.{
  ℕ, ◌≡◌, refl, sym, ap, ◌∙◌, Bool, true, false, ◌||◌, Option, none, some, List, ◌∷◌, [],
  if◌then◌else◌, Bool-cases, inl, inr, arith,
}
use abstract_block_dumper.Attempt.Database.{Database}
use abstract_block_dumper.Dispatch.{World}
use abstract_block_dumper.Registry.Items.{RegistryItem, BlockSource, latest, finalized}
use abstract_block_dumper.Scheduler.{head_of, Scheduler, ensure_starting_block}
use abstract_block_dumper.Scheduler.Loop.{
  same_source, Groups, append_to, add_to_groups, group_by_block_source, Turn, LoopOptions,
  resolve_groups, start,
}
use abstract_block_dumper.Scheduler.Loop.Isolation.{follow, run_turns-follow}
use abstract_block_dumper.Scheduler.Loop.Polls.{Cursor, cursor, resolve, ensure_own, ensure_other}
use abstract_block_dumper.Scheduler.Loop.Progress.{same_source_sound, is_polled}
use abstract_block_dumper.Settings.{Settings}

-- A registered task follows the head.
unfoldable pub has_task : BlockSource → List RegistryItem → Bool
has_task source [] = false
has_task source (item ∷ rest) =
    let later = has_task source rest in same_source item.block_source source || later

same_source_via :
    (key a b : BlockSource) → same_source key a ≡ true → same_source key b ≡ same_source a b
same_source_via key a b e = ap (λ k. same_source k b) (same_source_sound key a e)

or_swap : (a b c : Bool) → (a || (b || c)) ≡ (b || (a || c))
or_swap a b c = ground arith

or_twice : (a b : Bool) → (a || (a || b)) ≡ (a || b)
or_twice a b = ground arith

or_front : (a b c : Bool) → (a || (b || c)) ≡ ((b || a) || c)
or_front a b c = ground arith

pub append_to-polled :
    (key source : BlockSource) (item : RegistryItem) (groups : Groups)
    → is_polled source (append_to key item groups)
      ≡ (same_source key source || is_polled source groups)
unfolding append_to is_polled
append_to-polled key source item [] = refl
append_to-polled key source item ((k, items) ∷ rest) = elim (Bool-cases (same_source k key)) [
  | inl y ↦ rw y (
      sym (
        ap (λ b. b || (same_source k source || is_polled source rest))
          (sym (same_source_via k key source y))
        ∙ or_twice (same_source k source) (is_polled source rest)))
  | inr n ↦ rw n (
      ap (λ b. same_source k source || b) (append_to-polled key source item rest)
      ∙ or_swap (same_source k source) (same_source key source) (is_polled source rest))
]

add_to_groups-polled :
    (groups : Groups) (items : List RegistryItem) (source : BlockSource)
    → is_polled source (add_to_groups groups items)
      ≡ (has_task source items || is_polled source groups)
unfolding add_to_groups has_task
add_to_groups-polled groups [] source = refl
add_to_groups-polled groups (item ∷ rest) source =
    add_to_groups-polled (append_to item.block_source item groups) rest source
    ∙ ap (λ b. has_task source rest || b) (append_to-polled item.block_source source item groups)
    ∙ or_front (has_task source rest) (same_source item.block_source source)
        (is_polled source groups)

group_by-polled :
    (items : List RegistryItem) (source : BlockSource)
    → has_task source items ≡ true
    → is_polled source (group_by_block_source items) ≡ true
unfolding group_by_block_source is_polled
group_by-polled items source h = add_to_groups-polled [] items source ∙ ap (λ b. b || false) h

-- What the first loop of `start` makes of a cursor.
abbrev resolve_cursor : Bool → Option ℕ → Cursor → Cursor
resolve_cursor polled resolved (last, observed) =
    (if polled then resolve last resolved else last, observed)

resolve_twice :
    (polled : Bool) (last observed resolved : Option ℕ)
    → resolve_cursor polled resolved (resolve last resolved, observed)
      ≡ (resolve last resolved, observed)
resolve_twice false last observed resolved = refl
resolve_twice true none observed none = refl
resolve_twice true none observed (some n) = refl
resolve_twice true (some n) observed resolved = refl

resolve_groups-cursor :
    (starting_block : BlockSource → Option ℕ) (groups : Groups) (source : BlockSource)
    (st : Scheduler)
    → cursor source (resolve_groups starting_block groups st)
      ≡ resolve_cursor (is_polled source groups) (starting_block source) (cursor source st)
unfolding resolve_groups is_polled
resolve_groups-cursor starting_block [] source st = refl
resolve_groups-cursor starting_block ((key, items) ∷ rest) source st =
    let st' = (ensure_starting_block st key (starting_block key)).0 in
    let later = resolve_groups-cursor starting_block rest source st' in
    let after : Cursor → Cursor = resolve_cursor (is_polled source rest) (starting_block source) in
    elim (Bool-cases (same_source key source)) [
      | inr n ↦ rw n (later ∙ ap after (ensure_other st key source (starting_block key) n))
      | inl y ↦ rw y (
          later
          ∙ ap after (
              ap (λ k. cursor source (ensure_starting_block st k (starting_block k)).0)
                (same_source_sound key source y)
              ∙ (ensure_own st source (starting_block source)
                  (head_of st.last_processed_blocks source) refl).0)
          ∙ resolve_twice (is_polled source rest) (head_of st.last_processed_blocks source)
              (head_of st.observed_blocks source) (starting_block source))
    ]

no_head :
    (source : BlockSource)
    → head_of (record { latest_block = none; finalized_block = none }) source ≡ none
no_head latest = refl
no_head finalized = refl

module _ (db : Database) (s : Settings) (options : LoopOptions) where
  -- Each head that some registered task follows starts at its starting block, where that is resolved,
  -- and its last processed and observed blocks are from then on what its own reads make of them,
  -- one poll in each turn: the other head's failures, the tasks that are sent and the sweeps neither
  -- cost it a turn nor move it otherwise.
  pub start-follow :
      (functions : List RegistryItem) (starting_block : BlockSource → Option ℕ) (turns : List Turn)
      (source : BlockSource) (st : Scheduler) (w : World db) (last : Option ℕ)
      → has_task source functions ≡ true
      → cursor source (start db s options functions starting_block turns ((st, w), last)).0.0
        ≡ follow source turns (starting_block source, head_of st.observed_blocks source)
  unfolding start
  start-follow functions starting_block turns source st w last h =
      let groups = group_by_block_source functions in
      let polled = group_by-polled functions source h in
      let fresh : Scheduler = record st {
        last_processed_blocks = record { latest_block = none; finalized_block = none };
      } in
      run_turns-follow db s options functions groups turns source
        (resolve_groups starting_block groups fresh) w last polled
      ∙ ap (follow source turns) (
          resolve_groups-cursor starting_block groups source fresh
          ∙ ap (λ b. resolve_cursor b (starting_block source) (cursor source fresh)) polled
          ∙ ap (λ o. (resolve o (starting_block source), head_of st.observed_blocks source))
              (no_head source))
