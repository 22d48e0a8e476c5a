-- ===== src/Playbooks/Caching.antt =====
-- The repository under a sequence of loads and invalidations, of any applications. `LoadPlaybook` holds
-- no lock from its check of the cache to its two writes: the writes of a load that other calls overlap
-- are operations of their own.
use nflow_runtime.Common.{
  ◌≡◌, ◌≢◌, refl, sym, ◌∙◌, inl, inr, true, false, Option, none, some, List, [], ◌∷◌, String, arith,
  Bool-cases, Option-cases, ◌⊎◌, eq_iff, str_eq,
}
use nflow_runtime.Common.Dict.{lookup, lookup-insert}
use nflow_runtime.Playbooks.{
  Books, PlaybookRepository, Source, unreadable, read, Loaded, answered, failed, panicked,
  deep_copy_playbooks, clean_playbooks_for_cache, load_playbook, load_from_source, needs_reload,
  validate_playbooks_integrity, keep_loaded, get_playbooks, set_playbooks, set_reloaded,
  invalidate_cache, invalidate_all_cache,
}

pub data Op (X : Type 0) : Type 0 where
  loads : String → Source X → Op X
  stores : String → Option (Books X) → Op X
  marks : String → Op X
  invalidates : String → Op X
  invalidates_all : Op X

module _ {X : Type 0} where
  unfoldable pub repository : Loaded X → PlaybookRepository X
  repository (answered books r) = r
  repository (failed r) = r
  repository (panicked r) = r

  unfoldable pub apply : PlaybookRepository X → Op X → PlaybookRepository X
  unfolding repository load_playbook invalidate_cache invalidate_all_cache set_playbooks
      set_reloaded
  apply r (loads app_name source) = repository (load_playbook r app_name source)
  apply r (stores app_name kept) = set_playbooks r app_name kept
  apply r (marks app_name) = set_reloaded r app_name
  apply r (invalidates app_name) = invalidate_cache r app_name
  apply r invalidates_all = invalidate_all_cache r

  unfoldable pub apply_all : PlaybookRepository X → List (Op X) → PlaybookRepository X
  unfolding apply
  apply_all r [] = r
  apply_all r (op ∷ ops) = apply_all (apply r op) ops

  -- No operation invalidates this application, or stores it for a load that checked the cache before.
  abbrev pub Spares : String → List (Op X) → Type 0
  Spares app_name [] = Unit
  Spares app_name (loads a source ∷ ops) = Spares app_name ops
  Spares app_name (stores a kept ∷ ops) = (a ≢ app_name) × Spares app_name ops
  Spares app_name (marks a ∷ ops) = Spares app_name ops
  Spares app_name (invalidates a ∷ ops) = (a ≢ app_name) × Spares app_name ops
  Spares app_name (invalidates_all ∷ ops) = ⊥

  abbrev Holds : String → Books X → PlaybookRepository X → Type 0
  Holds app_name books r =
      (lookup app_name r.needs_reload ≡ some false)
      × (lookup app_name r.playbooks ≡ some (some books))

  Holds-fresh :
      (app_name : String) (books : Books X) (r : PlaybookRepository X)
      → Holds app_name books r
      → needs_reload r app_name ≡ false
  unfolding needs_reload
  Holds-fresh app_name books r (a, b) = ground (arith, a)

  Holds-get_playbooks :
      (app_name : String) (books : Books X) (r : PlaybookRepository X)
      → Holds app_name books r
      → get_playbooks r app_name ≡ some books
  unfolding get_playbooks
  Holds-get_playbooks app_name books r (a, b) = ground (arith, b)

  load_playbook-Holds :
      (app_name : String) (books : Books X) (r : PlaybookRepository X) (source : Source X)
      → Holds app_name books r
      → load_playbook r app_name source ≡ answered (some (deep_copy_playbooks books)) r
  unfolding load_playbook
  load_playbook-Holds app_name books r source h =
      rw (Holds-fresh app_name books r h, Holds-get_playbooks app_name books r h) refl

  keep_loaded-Holds :
      (a app_name : String) (books : Books X) (kept : Option (Books X)) (r : PlaybookRepository X)
      → a ≢ app_name
      → Holds app_name books r
      → Holds app_name books (keep_loaded r a kept)
  unfolding keep_loaded set_playbooks set_reloaded
  keep_loaded-Holds a app_name books kept r differ (f, g) = (
    ground (arith, f, differ, eq_iff a app_name, lookup-insert a app_name false r.needs_reload),
    ground (arith, g, differ, eq_iff a app_name, lookup-insert a app_name kept r.playbooks),
  )

  load_from_source-Holds :
      (a app_name : String) (books : Books X) (r : PlaybookRepository X) (source : Source X)
      → a ≢ app_name
      → Holds app_name books r
      → Holds app_name books (repository (load_from_source r a source))
  unfolding load_from_source repository
  load_from_source-Holds a app_name books r unreadable differ h = h
  load_from_source-Holds a app_name books r (read none) differ h =
      keep_loaded-Holds a app_name books none r differ h
  load_from_source-Holds a app_name books r (read (some bs)) differ h =
      elim (Bool-cases (validate_playbooks_integrity bs)) [
        | inl e ↦
            rw (e)
              (keep_loaded-Holds a app_name books (some (clean_playbooks_for_cache bs)) r differ h)
        | inr e ↦ rw (e) h
      ]

  load_playbook-stale :
      (r : PlaybookRepository X) (app_name : String) (source : Source X)
      → needs_reload r app_name ≡ true
      → load_playbook r app_name source ≡ load_from_source r app_name source
  unfolding load_playbook
  load_playbook-stale r app_name source e = rw (e) refl

  load_playbook-cases :
      (r : PlaybookRepository X) (app_name : String) (source : Source X)
      → (load_playbook r app_name source ≡ load_from_source r app_name source)
        ⊎ ((bs : Books X) × (load_playbook r app_name source ≡ answered (some bs) r))
  unfolding load_playbook
  load_playbook-cases r app_name source = elim (Bool-cases (needs_reload r app_name)) [
    | inl f ↦ inl (rw (f) refl)
    | inr f ↦ elim (Option-cases (get_playbooks r app_name)) [
      | inl g ↦ inl (rw (f, g) refl)
      | inr (bs, g) ↦ inr (deep_copy_playbooks bs, rw (f, g) refl)
    ]
  ]

  loads-Holds :
      (a app_name : String) (books : Books X) (r : PlaybookRepository X) (source : Source X)
      → Holds app_name books r
      → Holds app_name books (repository (load_playbook r a source))
  unfolding repository
  loads-Holds a app_name books r source h = elim (Bool-cases (str_eq a app_name)) [
    | inl e ↦
        let same : a ≡ app_name = ground (arith, e, eq_iff a app_name) in
        rw (same, load_playbook-Holds app_name books r source h) h
    | inr e ↦
        let differ : a ≢ app_name = λ f. absurd (ground (arith, e, f, eq_iff a app_name)) in
        let loaded = load_from_source-Holds a app_name books r source differ h in
        elim (load_playbook-cases r a source) [ inl f ↦ rw (f) loaded | inr (bs, f) ↦ rw (f) h ]
  ]

  apply_all-Holds :
      (app_name : String) (books : Books X) (ops : List (Op X)) (r : PlaybookRepository X)
      → Spares app_name ops
      → Holds app_name books r
      → Holds app_name books (apply_all r ops)
  unfolding apply_all apply invalidate_cache set_playbooks set_reloaded
  apply_all-Holds app_name books [] r spared h = h
  apply_all-Holds app_name books (loads a source ∷ ops) r spared h =
      apply_all-Holds app_name books ops (repository (load_playbook r a source)) spared
        (loads-Holds a app_name books r source h)
  apply_all-Holds app_name books (stores a kept ∷ ops) r (differ, spared) (f, g) =
      apply_all-Holds app_name books ops (set_playbooks r a kept) spared
        (f, ground (arith, g, differ, eq_iff a app_name, lookup-insert a app_name kept r.playbooks))
  apply_all-Holds app_name books (marks a ∷ ops) r spared (f, g) =
      apply_all-Holds app_name books ops (set_reloaded r a) spared
        (ground (arith, f, eq_iff a app_name, lookup-insert a app_name false r.needs_reload), g)
  apply_all-Holds app_name books (invalidates a ∷ ops) r (differ, spared) (f, g) =
      apply_all-Holds app_name books ops (invalidate_cache r a) spared (
        ground (arith, f, differ, eq_iff a app_name, lookup-insert a app_name true r.needs_reload),
        g,
      )
  apply_all-Holds app_name books (invalidates_all ∷ ops) r spared h = absurd spared

  keep_loaded-fills :
      (r : PlaybookRepository X) (app_name : String) (got : Books X)
      → Holds app_name got (keep_loaded r app_name (some got))
  unfolding keep_loaded set_playbooks set_reloaded
  keep_loaded-fills r app_name got = (
    ground (arith, eq_iff app_name app_name, lookup-insert app_name app_name false r.needs_reload),
    ground
        (arith, eq_iff app_name app_name, lookup-insert app_name app_name (some got) r.playbooks),
  )

  load_from_source-fills :
      (r : PlaybookRepository X) (app_name : String) (source : Source X) (got : Books X)
      (r1 : PlaybookRepository X)
      → load_from_source r app_name source ≡ answered (some got) r1
      → Holds app_name got r1
  unfolding load_from_source
  load_from_source-fills r app_name unreadable got r1 e = absurd (ground (arith, e))
  load_from_source-fills r app_name (read none) got r1 e = absurd (ground (arith, e))
  load_from_source-fills r app_name (read (some books)) got r1 e =
      elim (Bool-cases (validate_playbooks_integrity books)) [
        | inr f ↦ absurd (ground (arith, e, f))
        | inl f ↦
            let same : clean_playbooks_for_cache books ≡ got = ground (arith, e, f) in
            let kept : keep_loaded r app_name (some (clean_playbooks_for_cache books)) ≡ r1 =
              ground (arith, e, f) in
            rw⁻¹ (kept, same) (keep_loaded-fills r app_name (clean_playbooks_for_cache books))
      ]

  -- After a load that read an application, with no other call between its check and its writes, a load
  -- of it gives a copy of what that load gave, whatever the database has by then, once any loads,
  -- writes of overlapping loads and invalidations have come between, if none of them invalidates the
  -- application and none stores it for a load that had checked the cache earlier.
  pub load_playbook-apply_all :
      (r : PlaybookRepository X) (app_name : String) (before later : Source X) (got : Books X)
      (r1 : PlaybookRepository X) (ops : List (Op X))
      → needs_reload r app_name ≡ true
      → load_playbook r app_name before ≡ answered (some got) r1
      → Spares app_name ops
      → load_playbook (apply_all r1 ops) app_name later
        ≡ answered (some (deep_copy_playbooks got)) (apply_all r1 ops)
  load_playbook-apply_all r app_name before later got r1 ops stale loaded spared =
      load_playbook-Holds app_name got (apply_all r1 ops) later (
        apply_all-Holds app_name got ops r1 spared (
          load_from_source-fills r app_name before got r1
            (sym (load_playbook-stale r app_name before stale) ∙ loaded)))

  -- A load that overlaps an invalidation hides it: what was read before is stored and marked after, and
  -- is given from then on.
  keep_loaded-invalidate_cache :
      (r : PlaybookRepository X) (app_name : String) (old : Books X) (later : Source X)
      → load_playbook (keep_loaded (invalidate_cache r app_name) app_name (some old)) app_name later
        ≡ answered
            (some (deep_copy_playbooks old))
            (keep_loaded (invalidate_cache r app_name) app_name (some old))
  keep_loaded-invalidate_cache r app_name old later =
      load_playbook-Holds app_name old _ later
        (keep_loaded-fills (invalidate_cache r app_name) app_name old)
