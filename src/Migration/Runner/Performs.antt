-- ===== src/Migration/Runner/Performs.antt =====
-- Migrate of migration/migration.go as the run of its plan.
use dora_service_utils.Base.{
  ◌≡◌, refl, sym, ap, subst, ◌∙◌, true, Option, none, some, List, [], ◌∷◌, ◌++◌, arith, ◌⊎◌,
  Option-cases, Bool-cases, inl, inr,
}
use dora_service_utils.Base.Int.{ℤ, leb_ℤ}
use dora_service_utils.Base.Text.{Str}
use dora_service_utils.Base.Result.{Result, ok, err}
use dora_service_utils.Migration.Runner.{
  Database, Entry, schema_version_table, entry_version, entry_statements, Outcome, and_then,
  apply_statement, apply_statements, set_current_version, apply_migration, migrate_version, visit,
  continue_walk, walk, ensure_migration_table, get_current_version, migrate, after_table, walk_from,
}
use dora_service_utils.Migration.Runner.Plan.{
  Action, set_version, apply_all, file_actions, joined, version_actions, entry_actions, plan,
  perform, perform_all,
}

joined_parts :
    (a b : Option (List Action)) (acts : List Action)
    → joined a b ≡ some acts
    → (l k : List Action) × (a ≡ some l) × (b ≡ some k) × (l ++ k ≡ acts)
joined_parts (some l) (some k) acts h = (l, k, refl, refl, ground arith)
joined_parts (some l) none acts h = absurd (ground arith)
joined_parts none b acts h = absurd (ground arith)

module _ (trim_space : Str → Str) where
  module _ (db : Database) where
    open db use {State, read_table}

    and_then_assoc :
        (x : Outcome trim_space db) (f g : State → Outcome trim_space db)
        → and_then trim_space db (and_then trim_space db x f) g
          ≡ and_then trim_space db x (λ t. and_then trim_space db (f t) g)
    and_then_assoc (s, ok tt) f g = refl
    and_then_assoc (s, err e) f g = refl

    and_then_ext :
        (x : Outcome trim_space db) (f g : State → Outcome trim_space db)
        → ((t : State) → f t ≡ g t)
        → and_then trim_space db x f ≡ and_then trim_space db x g
    and_then_ext (s, ok tt) f g h = h s
    and_then_ext (s, err e) f g h = refl

    and_then_ok : (x : Outcome trim_space db) → and_then trim_space db x (λ t. (t, ok tt)) ≡ x
    and_then_ok (s, ok tt) = refl
    and_then_ok (s, err e) = refl

    perform_all-append :
        (a b : List Action) (s : State)
        → perform_all trim_space db (a ++ b) s
          ≡ and_then trim_space db
              (perform_all trim_space db a s)
              (λ t. perform_all trim_space db b t)
    perform_all-append [] b s = refl
    perform_all-append (x ∷ a) b s =
        and_then_ext (perform trim_space db x s) _ _ (λ t. perform_all-append a b t)
        ∙ sym (and_then_assoc (perform trim_space db x s) _ _)

    perform_all-apply :
        (stmts : List Str) (s : State)
        → perform_all trim_space db (apply_all stmts) s ≡ apply_statements trim_space db stmts s
    unfolding apply_statements
    perform_all-apply [] s = refl
    perform_all-apply (stmt ∷ stmts) s =
        and_then_ext (apply_statement trim_space db stmt s) _ _ (λ t. perform_all-apply stmts t)

    -- The actions of a file are what applying it does.
    perform_file :
        (version : ℤ) (stmts : List Str) (s : State)
        → perform_all trim_space db (apply_all stmts ++ (set_version version ∷ [])) s
          ≡ apply_migration trim_space db version (ok stmts) s
    unfolding apply_migration
    perform_file version stmts s =
        perform_all-append (apply_all stmts) (set_version version ∷ []) s
        ∙ and_then_ext (perform_all trim_space db (apply_all stmts) s) _ _
            (λ t. and_then_ok (set_current_version trim_space db version t))
        ∙ ap (λ x. and_then trim_space db x (λ t. set_current_version trim_space db version t))
            (perform_all-apply stmts s)

    file_performs :
        (version : ℤ) (r : Result (List Str)) (acts : List Action) (s : State)
        → file_actions version r ≡ some acts
        → apply_migration trim_space db version r s ≡ perform_all trim_space db acts s
    file_performs version (err e) acts s h = absurd (ground arith)
    file_performs version (ok stmts) acts s h =
        subst
          (λ a. apply_migration trim_space db version (ok stmts) s ≡ perform_all trim_space db a s)
          {x = apply_all stmts ++ (set_version version ∷ [])} {y = acts} (ground arith)
          (sym (perform_file version stmts s))

    nil_performs :
        (acts : List Action) (s : State)
        → some [] ≡ some acts
        → some (s, ok tt) ≡ some (perform_all trim_space db acts s)
    nil_performs [] s h = refl
    nil_performs (a ∷ acts) s h = absurd (ground arith)

    version_performs :
        (current : ℤ) (d : Entry) (r : Option (Result ℤ)) (acts : List Action) (s : State)
        → version_actions trim_space current d r ≡ some acts
        → migrate_version trim_space db current d r s ≡ some (perform_all trim_space db acts s)
    unfolding migrate_version
    version_performs current d none acts s h = absurd (ground arith)
    version_performs current d (some (err e)) acts s h = absurd (ground arith)
    version_performs current d (some (ok v)) acts s h = elim (Bool-cases (leb_ℤ v current)) [
      | inl y ↦ rw y (nil_performs acts s (rw y at h))
      | inr n ↦ rw n (ap some (file_performs v (entry_statements trim_space d) acts s (rw n at h)))
    ]

    visit_performs :
        (current : ℤ) (d : Entry) (acts : List Action) (s : State)
        → entry_actions trim_space current d ≡ some acts
        → visit trim_space db current d s ≡ some (perform_all trim_space db acts s)
    unfolding visit
    visit_performs current d acts s h = elim (Option-cases d.walk_error) [
      | inr (e, w) ↦ absurd (ground arith)
      | inl w ↦ elim (Bool-cases d.is_dir) [
        | inl y ↦ rw w (rw y (nil_performs acts s (ground arith)))
        | inr n ↦ rw w (
            rw n (
              version_performs current d (entry_version trim_space d) acts s
                (ground (arith, h, w, n))))
      ]
    ]

    continued :
        (x : Outcome trim_space db) (f : State → Option (Outcome trim_space db))
        (g : State → Outcome trim_space db)
        → ((t : State) → f t ≡ some (g t))
        → continue_walk trim_space db (some x) f ≡ some (and_then trim_space db x g)
    unfolding continue_walk
    continued (s, ok tt) f g h = h s
    continued (s, err e) f g h = refl

    walk_performs :
        (current : ℤ) (entries : List Entry) (acts : List Action) (s : State)
        → plan trim_space current entries ≡ some acts
        → walk trim_space db current entries s ≡ some (perform_all trim_space db acts s)
    unfolding walk
    walk_performs current [] acts s h = nil_performs acts s h
    walk_performs current (d ∷ entries) acts s h =
        let (l, k, a, b, e) =
          joined_parts (entry_actions trim_space current d) (plan trim_space current entries) acts
            h in
        rw (visit_performs current d l s a) (
          continued (perform_all trim_space db l s) _ (λ t. perform_all trim_space db k t)
            (λ t. walk_performs current entries k t b)
          ∙ ap some (sym (perform_all-append l k s) ∙ ap (λ c. perform_all trim_space db c s) e))

    pub migrate_performs_plan :
        (entries : List Entry) (s t : State) (current : ℤ) (acts : List Action)
        → ensure_migration_table trim_space db s ≡ (t, ok tt)
        → get_current_version trim_space db t ≡ ok current
        → plan trim_space current entries ≡ some acts
        → migrate trim_space db entries s ≡ some (perform_all trim_space db acts t)
    unfolding migrate after_table walk_from
    migrate_performs_plan entries s t current acts e v h =
        rw e (rw v (walk_performs current entries acts t h))

    -- Every file of the walk has a version that is not above the current one.
    abbrev pub AllApplied : ℤ → List Entry → Type 0
    AllApplied current [] = Unit
    AllApplied current (d ∷ entries) =
        (d.walk_error ≡ none)
        × ((d.is_dir ≡ true)
            ⊎ ((v : ℤ) × (entry_version trim_space d ≡ some (ok v)) × (leb_ℤ v current ≡ true)))
        × AllApplied current entries

    AllApplied-plan :
        (current : ℤ) (entries : List Entry)
        → AllApplied current entries
        → plan trim_space current entries ≡ some []
    unfolding entry_version
    AllApplied-plan current [] h = refl
    AllApplied-plan current (d ∷ entries) (w, inl dir, rest) =
        rw w (rw dir (rw (AllApplied-plan current entries rest) refl))
    AllApplied-plan current (d ∷ entries) (w, inr (v, e, le), rest) = elim (Bool-cases d.is_dir) [
      | inl y ↦ rw w (rw y (rw (AllApplied-plan current entries rest) refl))
      | inr n ↦ rw w (rw n (rw e (rw le (rw (AllApplied-plan current entries rest) refl))))
    ]

    -- Migrate leaves a database that is up to date as it is: where the migration table is there, its
    -- current version can be read, and every file of the walk has a version that is not above it, no
    -- statement is run and no version written.
    pub migrate_up_to_date :
        (entries : List Entry) (s : State) (current : ℤ)
        → read_table schema_version_table s ≡ ok tt
        → get_current_version trim_space db s ≡ ok current
        → AllApplied current entries
        → migrate trim_space db entries s ≡ some (s, ok tt)
    unfolding ensure_migration_table
    migrate_up_to_date entries s current r v h =
        migrate_performs_plan entries s s current [] (rw (r, ensure_migration_table) refl) v
          (AllApplied-plan current entries h)
