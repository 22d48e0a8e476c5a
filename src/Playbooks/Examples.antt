-- ===== src/Playbooks/Examples.antt =====
-- The theorems about the repository at an application with a starter that leads nowhere.
use nflow_runtime.Common.{ℕ, ◌≡◌, refl, Bool, none, some, List, [], ◌∷◌, arith, eq_iff}
use nflow_runtime.Common.Dict.{lookup, insert}
use nflow_runtime.Workflow.{Node, text, get_workflow, is_text, value_of}
use nflow_runtime.Playbooks.{
  Books, PlaybookRepository, unreadable, read, answered, new_repository, needs_reload,
  load_playbook, load_from_source, deep_copy_playbooks, clean_playbooks_for_cache, clean_flows,
  clean_playbook, has_output_1, is_kept, keep_loaded, set_playbooks, set_reloaded,
  validate_playbooks_integrity, check_flows, check_playbook, is_checkable, asserted_at, is_asserted,
}
use nflow_runtime.Playbooks.Rebuild.{rebuild_found}
use nflow_runtime.Playbooks.Routes.{clean_playbooks_for_cache-get_workflow}
use nflow_runtime.Playbooks.Caching.{
  Op, loads, stores, marks, invalidates, apply_all, load_playbook-apply_all,
}

abbrev loose : Node ℕ
loose = record {
  values = ("type", text "starter") ∷ ("method", text "GET") ∷ ("urlpattern", text "/a") ∷ [];
  outputs = none;
}

abbrev tied : Node ℕ
tied = record loose {
  outputs = some (
      ("output_1", some (record { connections = some (record { node = "n3"; output = "i" } ∷ []) }))
      ∷ []);
}

abbrev books : Books ℕ
books = ("flow", ("data", some (("n1", some loose) ∷ ("n2", some tied) ∷ [])) ∷ []) ∷ []

abbrev cleaned : Books ℕ
cleaned = ("flow", ("data", some (("n2", some tied) ∷ [])) ∷ []) ∷ []

abbrev loaded : PlaybookRepository ℕ
loaded = record { playbooks = ("app", some cleaned) ∷ []; needs_reload = ("app", Bool.false) ∷ [] }

clean_playbooks_for_cache-get_workflow_example :
    get_workflow "/a" "GET" "app" (clean_playbooks_for_cache books)
    ≡ rebuild_found is_kept (λ n. n) (get_workflow "/a" "GET" "app" books)
clean_playbooks_for_cache-get_workflow_example =
    clean_playbooks_for_cache-get_workflow "/a" "GET" "app" books

abbrev ops : List (Op ℕ)
ops =
    loads "app" unreadable
    ∷ stores "other" none
    ∷ marks "other"
    ∷ invalidates "shop"
    ∷ loads "shop" (read none)
    ∷ []

load_playbook-apply_all_example :
    load_playbook (apply_all loaded ops) "app" unreadable
    ≡ answered (some (deep_copy_playbooks cleaned)) (apply_all loaded ops)
unfolding load_playbook new_repository needs_reload lookup insert load_from_source
    clean_playbooks_for_cache clean_flows clean_playbook is_kept keep_loaded set_playbooks
    set_reloaded validate_playbooks_integrity check_flows check_playbook is_checkable asserted_at
    is_asserted is_text value_of has_output_1
load_playbook-apply_all_example =
    load_playbook-apply_all new_repository "app" (read (some books)) unreadable cleaned loaded ops
      refl refl
      (
        (λ e. absurd (ground (arith, e, eq_iff "other" "app"))),
        ((λ e. absurd (ground (arith, e, eq_iff "shop" "app"))), tt),
      )
