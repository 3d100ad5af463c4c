-- ===== src/Scheduler/Loop/Grouping.antt =====
-- services/scheduler.py: `_group_by_block_source`.
use mathlib.Core.List.{append_assoc, append-nil}
use abstract_block_dumper.Prelude.{
  arith, ◌≡◌, refl, sym, ap, ◌∙◌, Bool, true, false, List, ◌∷◌, [], ◌++◌, ◌||◌, if◌then◌else◌,
  Bool-cases, inl, inr,
}
use abstract_block_dumper.Registry.Items.{RegistryItem, BlockSource, latest, finalized}
use abstract_block_dumper.Scheduler.Loop.Start.{append_to-polled}
use abstract_block_dumper.Scheduler.Loop.{
  same_source, Groups, append_to, add_to_groups, group_by_block_source,
}
use abstract_block_dumper.Scheduler.Loop.Progress.{same_source_sound, is_polled}

-- The tasks under a key.
unfoldable pub tasks_of : BlockSource → Groups → List RegistryItem
tasks_of source [] = []
tasks_of source ((key, items) ∷ rest) =
    let later = tasks_of source rest in if same_source key source then items ++ later else later

-- The tasks that follow a head.
unfoldable pub following : BlockSource → List RegistryItem → List RegistryItem
following source [] = []
following source (item ∷ rest) =
    let later = following source rest in
    if same_source item.block_source source then item ∷ later else later

-- No key stands twice, as in a dict.
unfoldable pub HasDistinctKeys : Groups → Type 0
HasDistinctKeys [] = Unit
HasDistinctKeys ((key, items) ∷ rest) = (is_polled key rest ≡ false) × HasDistinctKeys rest

unpolled_tasks :
    (source : BlockSource) (groups : Groups)
    → is_polled source groups ≡ false
    → tasks_of source groups ≡ []
unfolding tasks_of is_polled
unpolled_tasks source [] p = refl
unpolled_tasks source ((key, items) ∷ rest) p =
    let other : same_source key source ≡ false = ground (arith, p) in
    let none_later : is_polled source rest ≡ false = ground (arith, p) in
    rw other (unpolled_tasks source rest none_later)

-- `items`, with `item` behind where its head is the one asked for.
abbrev with_task : Bool → List RegistryItem → RegistryItem → List RegistryItem
with_task true items item = items ++ item ∷ []
with_task false items item = items

with_task_behind :
    (own : Bool) (items later : List RegistryItem) (item : RegistryItem)
    → items ++ with_task own later item ≡ with_task own (items ++ later) item
with_task_behind true items later item = sym (append_assoc items later (item ∷ []))
with_task_behind false items later item = refl

appended_later :
    (here : Bool) (items later later' : List RegistryItem) (own : Bool) (item : RegistryItem)
    → later' ≡ with_task own later item
    → (if here then items ++ later' else later')
      ≡ with_task own (if here then items ++ later else later) item
appended_later true items later later' own item e =
    ap (λ l. items ++ l) e ∙ with_task_behind own items later item
appended_later false items later later' own item e = e

-- The key of the first group is the one asked for exactly when the item's is.
appended_here :
    (key source : BlockSource) (item : RegistryItem) (k : BlockSource) (items : List RegistryItem)
    (rest : Groups)
    → same_source k key ≡ true
    → is_polled k rest ≡ false
    → tasks_of source ((k, items ++ item ∷ []) ∷ rest)
      ≡ with_task (same_source key source) (tasks_of source ((k, items) ∷ rest)) item
unfolding tasks_of
appended_here key source item k items rest y fresh = elim (Bool-cases (same_source key source)) [
  | inl own ↦
      let here : same_source k source ≡ true =
        ap (λ b. same_source b source) (same_source_sound k key y) ∙ own in
      let last : tasks_of source rest ≡ [] =
        unpolled_tasks source rest
          (ap (λ b. is_polled b rest) (sym (same_source_sound k source here)) ∙ fresh) in
      rw (own, here, last)
        (append-nil (items ++ item ∷ []) ∙ ap (λ l. l ++ item ∷ []) (sym (append-nil items)))
  | inr other ↦
      let elsewhere : same_source k source ≡ false =
        ap (λ b. same_source b source) (same_source_sound k key y) ∙ other in
      rw (other, elsewhere) refl
]

append_to-tasks :
    (key source : BlockSource) (item : RegistryItem) (groups : Groups)
    → HasDistinctKeys groups
    → tasks_of source (append_to key item groups)
      ≡ with_task (same_source key source) (tasks_of source groups) item
unfolding append_to tasks_of HasDistinctKeys
append_to-tasks key source item [] d = elim (Bool-cases (same_source key source)) [
  | inl y ↦ rw y refl
  | inr n ↦ rw n refl
]
append_to-tasks key source item ((k, items) ∷ rest) (fresh, d) =
    elim (Bool-cases (same_source k key)) [
      | inl y ↦ rw y (appended_here key source item k items rest y fresh)
      | inr n ↦ rw n (
          appended_later (same_source k source) items (tasks_of source rest) _
            (same_source key source) item (append_to-tasks key source item rest d))
    ]

same_source_sym : (a b : BlockSource) → same_source a b ≡ same_source b a
same_source_sym latest latest = refl
same_source_sym latest finalized = refl
same_source_sym finalized latest = refl
same_source_sym finalized finalized = refl

append_to-HasDistinctKeys :
    (key : BlockSource) (item : RegistryItem) (groups : Groups)
    → HasDistinctKeys groups
    → HasDistinctKeys (append_to key item groups)
unfolding append_to HasDistinctKeys is_polled
append_to-HasDistinctKeys key item [] d = (refl, tt)
append_to-HasDistinctKeys key item ((k, items) ∷ rest) (fresh, d) =
    elim (Bool-cases (same_source k key)) [
      | inl y ↦ rw y (fresh, d)
      | inr n ↦ rw n (
        append_to-polled key k item rest
            ∙ ap (λ b. b || is_polled k rest) (same_source_sym key k ∙ n)
            ∙ fresh,
        append_to-HasDistinctKeys key item rest d,
      )
    ]

with_following :
    (own : Bool) (before later : List RegistryItem) (item : RegistryItem)
    → with_task own before item ++ later ≡ before ++ (if own then item ∷ later else later)
with_following true before later item = append_assoc before (item ∷ []) later
with_following false before later item = refl

add_to_groups-tasks :
    (items : List RegistryItem) (groups : Groups) (source : BlockSource)
    → HasDistinctKeys groups
    → (tasks_of source (add_to_groups groups items)
        ≡ tasks_of source groups ++ following source items)
      × HasDistinctKeys (add_to_groups groups items)
unfolding add_to_groups following
add_to_groups-tasks [] groups source d = (sym (append-nil (tasks_of source groups)), d)
add_to_groups-tasks (item ∷ rest) groups source d =
    let (tasks, distinct) =
      add_to_groups-tasks rest (append_to item.block_source item groups) source
        (append_to-HasDistinctKeys item.block_source item groups d) in
    (
      tasks
          ∙ ap (λ l. l ++ following source rest)
              (append_to-tasks item.block_source source item groups d)
          ∙ with_following (same_source item.block_source source) (tasks_of source groups)
              (following source rest) item,
      distinct,
    )

-- The groups hold, for each head, exactly the registered tasks that follow it, in the order of
-- their registration, and no head has two groups.
pub group_by_block_source-tasks :
    (items : List RegistryItem) (source : BlockSource)
    → (tasks_of source (group_by_block_source items) ≡ following source items)
      × HasDistinctKeys (group_by_block_source items)
unfolding group_by_block_source tasks_of HasDistinctKeys
group_by_block_source-tasks items source = add_to_groups-tasks items [] source tt
