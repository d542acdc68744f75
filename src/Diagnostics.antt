-- ===== src/Diagnostics.antt =====
-- include/pmm/diagnostics.h: what `verify` and `load` report.
use netkeep80_persist_memory.Base.{
  ℕ, ◌+◌, ◌%◌, ◌≡◌, ◌≤◌, Bool, true, false, List, [], ◌∷◌, ◌++◌, arith, ltb, length, length-append,
  if◌then◌else◌, inl, inr, refl, sym, ap, Bool-cases,
}
use netkeep80_persist_memory.Traits.{size_max}

pub data RecoveryMode : Type 0 where
  verify repair : RecoveryMode

pub data ViolationType : Type 0 where
  none block_state_inconsistent prev_offset_mismatch counter_mismatch : ViolationType
  free_tree_stale forest_registry_missing forest_domain_missing : ViolationType
  forest_domain_flags_missing header_corruption : ViolationType

pub data DiagnosticAction : Type 0 where
  no_action repaired rebuilt aborted : DiagnosticAction

pub record DiagnosticEntry : Type 0 where
  pub type : ViolationType
  pub action : DiagnosticAction
  pub block_index : ℕ
  pub expected : ℕ
  pub actual : ℕ

abbrev pub max_diagnostic_entries : ℕ
max_diagnostic_entries = 64

-- `entries` holds the first `entry_count` slots of the array.
pub record VerifyResult : Type 0 where
  pub mode : RecoveryMode
  pub ok : Bool
  pub violation_count : ℕ
  pub entries : List DiagnosticEntry
  pub entry_count : ℕ

-- `VerifyResult{}`
abbrev pub fresh : VerifyResult
fresh = record { mode = verify; ok = true; violation_count = 0; entries = []; entry_count = 0 }

unfoldable pub add : ViolationType → DiagnosticAction → ℕ → ℕ → ℕ → VerifyResult → VerifyResult
add type action block_index expected actual r =
    let counted : VerifyResult = record r {
      ok = false;
      violation_count = (r.violation_count + 1) % (size_max + 1);
    } in
    if ltb r.entry_count max_diagnostic_entries
    then record counted {
      entries =
          r.entries
          ++ record {
            type = type;
            action = action;
            block_index = block_index;
            expected = expected;
            actual = actual;
          }
            ∷ [];
      entry_count = r.entry_count + 1;
    }
    else counted

-- The array is never written past its end, and `entry_count` counts the slots that are filled.
pub record IsBounded (r : VerifyResult) : Type 0 where
  pub filled : r.entry_count ≡ length r.entries
  pub fits : r.entry_count ≤ max_diagnostic_entries

-- On a report in bounds, `add` keeps the array in bounds and its entries, and clears `ok`. The new entry
-- comes behind the others, and is dropped only if the array is full.
pub add-IsBounded :
    (type : ViolationType) (action : DiagnosticAction) (block_index expected actual : ℕ)
    (r : VerifyResult)
    → IsBounded r
    → IsBounded (add type action block_index expected actual r)
      × ((add type action block_index expected actual r).ok ≡ false)
      × ((add type action block_index expected actual r).entries
          ≡ r.entries
            ++ (if ltb (length r.entries) max_diagnostic_entries
                then record {
                  type = type;
                  action = action;
                  block_index = block_index;
                  expected = expected;
                  actual = actual;
                }
                  ∷ []
                else []))
unfolding add
add-IsBounded type action block_index expected actual r h =
    elim (Bool-cases (ltb (length r.entries) max_diagnostic_entries)) [
      | inl e ↦
          let room : ltb r.entry_count max_diagnostic_entries ≡ true =
            ground (arith, h.filled, e) in
          rw (room, e)
            (
              record {
                filled = omega (arith, h.filled, length-append r.entries (new ∷ []));
                fits = ground (arith, room);
              },
              refl,
              refl,
            )
      | inr e ↦
          let full : ltb r.entry_count max_diagnostic_entries ≡ false =
            ground (arith, h.filled, e) in
          rw (full, e)
            (record { filled = h.filled; fits = h.fits }, refl, sym (append_nil r.entries))
    ]
  where
    new : DiagnosticEntry
    new = record {
      type = type;
      action = action;
      block_index = block_index;
      expected = expected;
      actual = actual;
    }

    append_nil : (xs : List DiagnosticEntry) → xs ++ [] ≡ xs
    append_nil [] = refl
    append_nil (x ∷ xs) = ap (λ zs. x ∷ zs) (append_nil xs)
