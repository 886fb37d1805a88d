-- ===== src/Tests/Editing.antt =====
-- A log in which somebody turned a settled payment into a failed one.
use agentct.Base.{
  ℤ, ◌-◌, Bool, all, none, pos, codes, text_eq, filter, true, false, some, [], ◌∷◌, ◌≡◌, refl, inl,
  arith,
}
use agentct.Types.{AuditEntry, SpendWindow}
use agentct.Policy.Evaluator.{windowed_spend}
use agentct.Audit.Store.{Row, Table, list_since}
use agentct.Audit.Hash.{recompute_entry_hash}
use agentct.Guard.Payment.{new_entry}
use agentct.Guard.Rehydration.{is_intact, hydrate, hydrate_log}
use agentct.Guard.Restart.{charges, is_charged, hydrate-charges, hydrate_log-edited}
use agentct.Tests.Samples.{alice, bob, payment, usdc, allowing, success, outside, config, new_guard}

abbrev row : AuditEntry
row = new_entry outside config (codes "a") (payment (pos 60) alice) allowing (some success) 1000

abbrev next_row : AuditEntry
next_row = new_entry outside config (codes "b") (payment (pos 30) bob) allowing (some success) 2000

abbrev edited : AuditEntry
edited = record row { settlement = some (record success { success = false }) }

intact_test : is_intact outside config row ≡ true
unfolding recompute_entry_hash text_eq
intact_test = refl

edited_test : is_intact outside config edited ≡ false
unfolding recompute_entry_hash text_eq
edited_test = refl

hydrate-charges_example :
    windowed_spend
      (hydrate outside config (some (edited ∷ next_row ∷ [])) 3000 3000 new_guard).1.evaluator
      4000
      SpendWindow.hour
      usdc
    ≡ charges SpendWindow.hour usdc 4000
        (filter (is_charged outside config) (edited ∷ next_row ∷ []))
hydrate-charges_example =
    hydrate-charges outside config (edited ∷ next_row ∷ []) 3000 3000 4000 new_guard
      SpendWindow.hour usdc refl (inl refl) (omega arith)

abbrev stored : AuditEntry → Row
stored e = record { entry = e; batch_index = none; batch_root = none }

abbrev all_readable : AuditEntry → Bool
all_readable e = true

readable_before :
    all all_readable (list_since config.agent_id (3000 - 2500) (stored row ∷ stored next_row ∷ []))
    ≡ true
unfolding list_since text_eq
readable_before = refl

readable_after :
    all all_readable
      (list_since config.agent_id (3000 - 2500) (stored edited ∷ stored next_row ∷ []))
    ≡ true
unfolding list_since text_eq
readable_after = refl

hydrate_log-edited_example :
    let held : Table → ℤ = λ table.
      windowed_spend
        (hydrate_log outside config all_readable 2500 3000 3000 3000 table new_guard).1.evaluator
        4000
        SpendWindow.hour
        usdc in
    held (stored edited ∷ stored next_row ∷ []) ≡ held (stored row ∷ stored next_row ∷ [])
hydrate_log-edited_example =
    hydrate_log-edited outside config all_readable [] (stored next_row ∷ []) (stored row)
      (stored edited) 2500 3000 3000 3000 4000 new_guard SpendWindow.hour usdc readable_before
      readable_after refl edited_test refl refl refl refl refl (inl refl) (omega arith)
