-- ===== src/CeleryConfig/Laws.antt =====
-- services/celery_config.py: what an installation leaves in a queue table.
use text.Mathlib.TextPositions.{eq_refl}
use abstract_block_dumper.Prelude.{
  ◌≡◌, refl, sym, ap, ◌∙◌, subst, String, Bool, true, false, none, some, List, ◌∷◌, [], lookup,
  insert, str_eq, lookup-insert, lookup-insert_self, eq_iff, returned, raises, Bool-cases,
  Option-cases, inl, inr, ◌⊎◌,
}
use abstract_block_dumper.CeleryConfig.{
  KombuQueue, Table, Installed, put_first, keep_existing, install_queues,
}

module _ (declared_arguments : KombuQueue → String) where
  abbrev pub Agrees : Bool → Table → KombuQueue → KombuQueue → Type 0
  Agrees b table definition q =
      (lookup definition.name table ≡ some q)
      × (str_eq (declared_arguments q) (declared_arguments definition) ≡ b)

  -- Each definition has its queue, under its name and with its arguments.
  abbrev pub AllAgree : Table → List KombuQueue → List KombuQueue → Type 0
  AllAgree table [] [] = Unit {0}
  AllAgree table (definition ∷ rest) (q ∷ queues) =
      Agrees true table definition q × AllAgree table rest queues
  AllAgree table _ _ = ⊥

  -- A definition stands in the table with other arguments.
  abbrev pub HasConflict : Table → List KombuQueue → Type 0
  HasConflict table [] = ⊥
  HasConflict table (definition ∷ rest) =
      ((q : KombuQueue) × Agrees false table definition q) ⊎ HasConflict table rest

  abbrev pub IsOutcome : List KombuQueue → Installed → Type 0
  IsOutcome definitions (table, returned queues) = AllAgree table definitions queues
  IsOutcome definitions (table, raises) = HasConflict table definitions

  -- What the table holds stays there.
  abbrev pub Keeps : Table → Table → Type 0
  Keeps before after =
      (name : String) (q : KombuQueue) → lookup name before ≡ some q → lookup name after ≡ some q

  insert-Keeps :
      (table : Table) (definition : KombuQueue)
      → lookup definition.name table ≡ none
      → Keeps table (insert definition.name definition table)
  insert-Keeps table definition h name q e = elim (Bool-cases (str_eq definition.name name)) [
    | inl y ↦
        let absent : lookup name table ≡ none =
          ap (λ k. lookup k table) (sym ((eq_iff definition.name name).0 y)) ∙ h in
        cc
    | inr n ↦ rw (lookup-insert, n) e
  ]

  put_first-IsOutcome :
      (definition q : KombuQueue) (rest : List KombuQueue) (x : Installed)
      → Agrees true x.0 definition q
      → IsOutcome rest x
      → IsOutcome (definition ∷ rest) (put_first q x)
  put_first-IsOutcome definition q rest (table, returned queues) a h = (a, h)
  put_first-IsOutcome definition q rest (table, raises) a h = inr h

  put_first-table : (q : KombuQueue) (x : Installed) → (put_first q x).0 ≡ x.0
  put_first-table q (table, returned queues) = refl
  put_first-table q (table, raises) = refl

  -- What an installation promises, of a table before and its result.
  abbrev pub IsInstallation : Table → List KombuQueue → Installed → Type 0
  IsInstallation table definitions x = Keeps table x.0 × IsOutcome definitions x

  first_installed :
      (table : Table) (definition : KombuQueue) (rest : List KombuQueue) (x : Installed)
      → lookup definition.name table ≡ none
      → IsInstallation (insert definition.name definition table) rest x
      → IsInstallation table (definition ∷ rest) (put_first definition x)
  first_installed table definition rest x absent (keeps, outcome) =
      let kept =
        keeps definition.name definition (lookup-insert_self definition.name definition table) in
      (
        (λ name q e.
            subst (λ t. lookup name t ≡ some q) (sym (put_first-table definition x))
              (keeps name q (insert-Keeps table definition absent name q e))),
        put_first-IsOutcome definition definition rest x
            (kept, eq_refl (declared_arguments definition)) outcome,
      )

  kept_or_refused :
      (table : Table) (definition existing : KombuQueue) (rest : List KombuQueue) (x : Installed)
      → lookup definition.name table ≡ some existing
      → IsInstallation table rest x
      → IsInstallation table
          (definition ∷ rest)
          (keep_existing declared_arguments table definition existing x)
  kept_or_refused table definition existing rest x e (keeps, outcome) =
      elim (Bool-cases (str_eq (declared_arguments existing) (declared_arguments definition))) [
        | inl y ↦ rw y (
          (λ name q f.
              subst (λ t. lookup name t ≡ some q) (sym (put_first-table existing x))
                (keeps name q f)),
          put_first-IsOutcome definition existing rest x (keeps definition.name existing e, y)
              outcome,
        )
        | inr n ↦ rw n ((λ name q f. f), inl (existing, (e, n)))
      ]

  -- Whatever comes of an installation, each queue of the table before is in the table after it. If it
  -- ends, it gives for each definition, in order, the queue under its name in the table, with the
  -- arguments of the definition; if it raises, the table holds a queue under the name of a definition
  -- with other arguments.
  pub install_queues-IsInstallation :
      (table : Table) (definitions : List KombuQueue)
      → IsInstallation table definitions (install_queues declared_arguments table definitions)
  unfolding install_queues
  install_queues-IsInstallation table [] = ((λ name q e. e), tt)
  install_queues-IsInstallation table (definition ∷ rest) =
      elim (Option-cases (lookup definition.name table)) [
        | inl absent ↦
            rw (install_queues, absent)
              (first_installed table definition rest _ absent
                (install_queues-IsInstallation (insert definition.name definition table) rest))
        | inr (existing, e) ↦
            rw (install_queues, e)
              (kept_or_refused table definition existing rest _ e
                (install_queues-IsInstallation table rest))
      ]
