-- ===== src/Backoff/Entry.antt =====
-- `nextEntryFailureBackoff` of engine/entry-backoff.ts.
use Prim.Native.Nat.{min as min_nat}
use native.Mathlib.Nat.{pow-suc}
use beam_clmm.Prelude.{
  Option, List, ℕ, none, suc, ◌≤◌, ◌+◌, ◌≡◌, some, ◌*◌, ◌^◌, zero, ◌++◌, arith, ◌-◌, ◌∷◌, [],
  length, ap, refl, String, Bool, ◌||◌, false, if◌then◌else◌, str_eq,
}

-- ENTRY_FAILURE_COOLDOWN_BASE_MS and ENTRY_FAILURE_COOLDOWN_MAX_MS
abbrev pub entry_cooldown_base_ms : ℕ
entry_cooldown_base_ms = 30 * 60 * 1000

abbrev pub entry_cooldown_max_ms : ℕ
entry_cooldown_max_ms = 6 * 60 * 60 * 1000

-- `toLowerCase` and `includes` are parameters; a message that is missing or empty is no error.
module _ (to_lower_case : String → String) (includes : String → String → Bool) where
  abbrev is_insufficient : String → Bool
  is_insufficient message =
      includes message "insufficient token balance"
      || (includes message "insufficient_usdc_balance"
          || (includes message "insufficient_balance_after_swap"
              || (includes message "insufficient sol for gas"
                  || includes message "insufficient sol for enter")))

  abbrev pub is_insufficient_token_balance_error : Option String → Bool
  is_insufficient_token_balance_error none = false
  is_insufficient_token_balance_error (some error) =
      if str_eq error "" then false else is_insufficient (to_lower_case error)

pub record EntryFailureBackoff : Type 0 where
  pub failures : ℕ
  pub next_attempt_at : ℕ

abbrev previous_failures : Option EntryFailureBackoff → ℕ
previous_failures none = 0
previous_failures (some b) = b.failures

unfoldable pub next_entry_failure_backoff : Option EntryFailureBackoff → ℕ → EntryFailureBackoff
next_entry_failure_backoff previous now =
    let failures = previous_failures previous + 1 in
    record {
      failures = failures;
      next_attempt_at =
          now + min_nat entry_cooldown_max_ms (entry_cooldown_base_ms * 2 ^ (failures - 1));
    }

-- Failed attempts at the given times, oldest first, after `previous`.
unfoldable pub fail_entries : Option EntryFailureBackoff → List ℕ → Option EntryFailureBackoff
fail_entries previous [] = previous
fail_entries previous (t ∷ ts) = fail_entries (some (next_entry_failure_backoff previous t)) ts

-- The wait after a given number of failures in a row, said without the code: half an hour, an hour,
-- two, four, and then six hours.
abbrev pub scheduled_wait_ms : ℕ → ℕ
scheduled_wait_ms zero = 0
scheduled_wait_ms (suc zero) = 1_800_000
scheduled_wait_ms (suc (suc zero)) = 3_600_000
scheduled_wait_ms (suc (suc (suc zero))) = 7_200_000
scheduled_wait_ms (suc (suc (suc (suc zero)))) = 14_400_000
scheduled_wait_ms (suc (suc (suc (suc (suc k))))) = 21_600_000

pow_pos : (k : ℕ) → 1 ≤ 2 ^ k
pow_pos zero = omega arith
pow_pos (suc k) = rw (pow-suc 2 k) (omega (arith, pow_pos k))

wait-eq-scheduled :
    (k : ℕ)
    → min_nat entry_cooldown_max_ms (entry_cooldown_base_ms * 2 ^ k) ≡ scheduled_wait_ms (suc k)
wait-eq-scheduled zero = refl
wait-eq-scheduled (suc zero) = refl
wait-eq-scheduled (suc (suc zero)) = refl
wait-eq-scheduled (suc (suc (suc zero))) = refl
wait-eq-scheduled (suc (suc (suc (suc k)))) =
    rw (pow-suc 2 (suc (suc (suc k))), pow-suc 2 (suc (suc k)), pow-suc 2 (suc k), pow-suc 2 k)
      (omega (arith, pow_pos k))

fail_one :
    (previous : Option EntryFailureBackoff) (t : ℕ)
    → next_entry_failure_backoff previous t ≡ record {
      failures = previous_failures previous + 1;
      next_attempt_at = t + scheduled_wait_ms (suc (previous_failures previous));
    }
unfolding next_entry_failure_backoff
fail_one previous t = ground (arith, wait-eq-scheduled (previous_failures previous))

fail_entries_from :
    (previous : Option EntryFailureBackoff) (ts : List ℕ) (t k : ℕ)
    → k ≡ previous_failures previous + length ts
    → fail_entries previous (ts ++ (t ∷ []))
      ≡ some (record { failures = k + 1; next_attempt_at = t + scheduled_wait_ms (suc k) })
unfolding fail_entries
fail_entries_from previous [] t k e =
    let same : k ≡ previous_failures previous = omega arith in
    rw same (ap some (fail_one previous t))
fail_entries_from previous (s ∷ ts) t k e =
    fail_entries_from (some (next_entry_failure_backoff previous s)) ts t k
      (omega (arith, ap (λ (b : EntryFailureBackoff). b.failures) (fail_one previous s)))

-- After any failures in a row, the last at `t`, the count is their number and the next attempt waits
-- from `t` for the scheduled time: the wait doubles from half an hour and stops at six hours.
fail_entries-scheduled :
    (ts : List ℕ) (t : ℕ)
    → fail_entries none (ts ++ (t ∷ []))
      ≡ some (record {
        failures = length ts + 1;
        next_attempt_at = t + scheduled_wait_ms (suc (length ts));
      })
fail_entries-scheduled ts t = fail_entries_from none ts t (length ts) (omega arith)
