-- ===== src/Backoff/Proposal.antt =====
-- `nextProposalBackoff` and `isProposalBackoffActive` of engine/proposal-backoff.ts. The random draw
-- is a parameter.
use beam_clmm.Prelude.{Bool, Option, ℕ, false, ◌+◌, some, none, ◌≡◌, true, ◌^◌, ◌-◌, ◌or◌}
use beam_clmm.Number.{Number, floor, is_finite, ◌>?◌, min, ◌⊕◌, ◌⊗◌, int, lit}
use beam_clmm.Number.Order.{◌≼◌, IsOrdered, IsNum, not_lt_of_le}
use beam_clmm.Number.Rounding.{IsRounded}

pub record ProposalBackoff (F : Type 0) : Type 0 where
  pub failures : ℕ
  pub next_proposal_at : F

pub record ProposalBackoffOptions (F : Type 0) : Type 0 where
  pub base_ms : F
  pub max_ms : F
  pub jitter : Option F

module _ {F : Type 0} ⦃n : Number F⦄ where
  abbrev failures_of : Option (ProposalBackoff F) → ℕ
  failures_of none = 0
  failures_of (some b) = b.failures

  -- After the given number of failures.
  abbrev jittered_ms : F → ℕ → ProposalBackoffOptions F → F
  jittered_ms random failures opts = floor (
      min opts.max_ms (opts.base_ms ⊗ int (2 ^ (failures - 1)))
      ⊗ (int 1 ⊕ random ⊗ (opts.jitter or lit 5 1)))

  unfoldable pub next_proposal_backoff :
      F → Option (ProposalBackoff F) → F → ProposalBackoffOptions F → ProposalBackoff F
  next_proposal_backoff random previous now opts =
      let failures = failures_of previous + 1 in
      record {
        failures = failures;
        next_proposal_at = now ⊕ min (jittered_ms random failures opts) opts.max_ms;
      }

  abbrev pub is_proposal_backoff_active : Option (ProposalBackoff F) → F → Bool
  is_proposal_backoff_active none now = false
  is_proposal_backoff_active (some b) now = b.next_proposal_at >? now

  -- However many failures there are, the next proposal waits for the longest delay at most: from
  -- `now + maxMs` on the backoff that a failure leaves is not active. The clock is a finite number, and
  -- neither the longest delay nor the delay with its jitter is NaN.
  pub next_proposal_backoff_ends :
      (laws : IsOrdered F) (rounded : IsRounded F) (random : F)
      (previous : Option (ProposalBackoff F)) (now later : F) (opts : ProposalBackoffOptions F)
      → is_finite now ≡ true
      → IsNum (jittered_ms random (failures_of previous + 1) opts)
      → IsNum opts.max_ms
      → (now ⊕ opts.max_ms) ≼ later
      → is_proposal_backoff_active (some (next_proposal_backoff random previous now opts)) later
        ≡ false
  unfolding next_proposal_backoff
  next_proposal_backoff_ends laws rounded random previous now later opts fin p q h =
      not_lt_of_le laws _ later (
        laws.le_trans _ (now ⊕ opts.max_ms) later
          (rounded.add_mono _ opts.max_ms now fin (laws.min-le _ opts.max_ms p q).1) h)
