-- ===== src/Scheduler/Loop/Isolation.antt =====
-- services/scheduler.py: the failures of one head stay inside that head.
use abstract_block_dumper.Prelude.{
  ℕ, ◌≡◌, refl, ap, ◌∙◌, Bool, true, false, Option, List, ◌∷◌, [], if◌then◌else◌, Bool-cases, inl,
  inr,
}
use abstract_block_dumper.Attempt.Database.{Database}
use abstract_block_dumper.Dispatch.{World}
use abstract_block_dumper.Registry.Items.{RegistryItem, BlockSource}
use abstract_block_dumper.Scheduler.{Scheduler, poll_block_source}
use abstract_block_dumper.Scheduler.Loop.{
  same_source, Groups, Turn, LoopOptions, poll_groups, run_turn, run_turns,
}
use abstract_block_dumper.Scheduler.Loop.Polls.{
  Cursor, cursor, poll_head, poll_head_twice, poll_own, poll_other,
}
use abstract_block_dumper.Scheduler.Loop.Progress.{
  same_source_sound, is_polled, maybe_reconcile_cursors,
}
use abstract_block_dumper.Settings.{Settings}

-- The cursor of a head over the turns of the loop, from the reads of this head alone.
unfoldable pub follow : BlockSource → List Turn → Cursor → Cursor
follow source [] c = c
follow source (turn ∷ rest) c =
    follow source rest (poll_head c (turn.starting_block source) (turn.head source))

-- A further group of the same head changes nothing.
polled_again :
    (again : Bool) (c : Cursor) (resolved read : Option ℕ)
    → (if again
        then poll_head (poll_head c resolved read) resolved read
        else poll_head c resolved read)
      ≡ poll_head c resolved read
polled_again true c resolved read = poll_head_twice c resolved read
polled_again false c resolved read = refl

module _ (db : Database) (s : Settings) (options : LoopOptions) where
  -- A poll of the head itself, under whatever name its group has.
  poll_named :
      (turn : Turn) (items : List RegistryItem) (key source : BlockSource) (st : Scheduler)
      (w : World db)
      → same_source key source ≡ true
      → cursor source
          (poll_block_source db s turn.context options.lookback_enabled items key
            (turn.starting_block key)
            (turn.head key)
            (st, w)).0
        ≡ poll_head (cursor source st) (turn.starting_block source) (turn.head source)
  poll_named turn items key source st w y =
      ap
        (λ k.
          cursor source
            (poll_block_source db s turn.context options.lookback_enabled items k
              (turn.starting_block k) (turn.head k) (st, w)).0)
        (same_source_sound key source y)
      ∙ poll_own db s turn.context options.lookback_enabled items source
          (turn.starting_block source) (turn.head source) st w

  poll_groups-cursor :
      (turn : Turn) (groups : Groups) (source : BlockSource) (st : Scheduler) (w : World db)
      → cursor source (poll_groups db s options turn groups (st, w)).0 ≡ (
          if is_polled source groups
          then poll_head (cursor source st) (turn.starting_block source) (turn.head source)
          else cursor source st)
  unfolding poll_groups is_polled
  poll_groups-cursor turn [] source st w = refl
  poll_groups-cursor turn ((key, items) ∷ rest) source st w =
      let (st', w') =
        poll_block_source db s turn.context options.lookback_enabled items key
          (turn.starting_block key) (turn.head key) (st, w) in
      let later = poll_groups-cursor turn rest source st' w' in
      elim (Bool-cases (same_source key source)) [
        | inr n ↦ rw n (
            later
            ∙ ap
                (λ c.
                  if is_polled source rest
                  then poll_head c (turn.starting_block source) (turn.head source)
                  else c)
                (poll_other db s turn.context options.lookback_enabled items key source
                  (turn.starting_block key) (turn.head key) st w n))
        | inl y ↦ rw y (
            later
            ∙ ap
                (λ c.
                  if is_polled source rest
                  then poll_head c (turn.starting_block source) (turn.head source)
                  else c)
                (poll_named turn items key source st w y)
            ∙ polled_again (is_polled source rest) (cursor source st) (turn.starting_block source)
                (turn.head source))
      ]

  run_turn-cursor :
      (functions : List RegistryItem) (groups : Groups) (turn : Turn) (source : BlockSource)
      (st : Scheduler) (w : World db) (last : Option ℕ)
      → is_polled source groups ≡ true
      → cursor source (run_turn db s options functions groups turn ((st, w), last)).0.0
        ≡ poll_head (cursor source st) (turn.starting_block source) (turn.head source)
  unfolding run_turn
  run_turn-cursor functions groups turn source st w last p =
      let (st', w') = poll_groups db s options turn groups (st, w) in
      ap (cursor source) (maybe_reconcile_cursors db s options turn functions st' w' last)
      ∙ poll_groups-cursor turn groups source st w
      ∙ rw p refl

  -- The last processed block and the observed block of a head with tasks are what its own reads make
  -- of them, turn for turn: whatever the other head's reads give or raise, whatever processing and
  -- lookback do, and whatever the sweeps do, this head neither loses a turn nor moves otherwise.
  pub run_turns-follow :
      (functions : List RegistryItem) (groups : Groups) (turns : List Turn) (source : BlockSource)
      (st : Scheduler) (w : World db) (last : Option ℕ)
      → is_polled source groups ≡ true
      → cursor source (run_turns db s options functions groups turns ((st, w), last)).0.0
        ≡ follow source turns (cursor source st)
  unfolding run_turns follow
  run_turns-follow functions groups [] source st w last p = refl
  run_turns-follow functions groups (turn ∷ rest) source st w last p =
      let ((st', w'), last') = run_turn db s options functions groups turn ((st, w), last) in
      run_turns-follow functions groups rest source st' w' last' p
      ∙ ap (follow source rest) (run_turn-cursor functions groups turn source st w last p)
