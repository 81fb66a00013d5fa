-- ===== src/Pnl.antt =====
-- Profit and loss of a position and of the portfolio, engine/pnl.ts, and the summary of a reward
-- claim, engine/rewards.ts. `Math.sqrt` and `Math.pow` are parameters. The realized figures stand in
-- Settlement/Pass.
pub mod Value
pub mod Portfolio
use beam_clmm.Prelude.{
  Bool, Option, String, List, ℕ, ◌or◌, if◌then◌else◌, ◌∷◌, some, length, [], not, none, ◌+◌, ◌||◌,
}
use beam_clmm.Number.{Number, ◌⊕◌, int, max, ◌≤?◌, ◌⊖◌, ◌>?◌, ◌⊘◌, ◌⊗◌}

pub record PositionAnalyticsInput (F : Type 0) : Type 0 where
  pub deposited_usd : F
  pub current_value_usd : F
  pub cumulative_fees_claimed_usd : F
  pub cumulative_rewards_claimed_usd : Option F
  pub entry_price_usd : Option F
  pub entry_amount_x_usd : Option F
  pub entry_amount_y_usd : Option F
  pub opened_at_ms : F
  pub out_of_range_since_ms : Option F

pub record PositionAnalytics (F : Type 0) : Type 0 where
  pub cost_basis_usd : F
  pub unrealized_pnl_usd : F
  pub unrealized_pnl_pct : F
  pub fees_claimed_usd : F
  pub rewards_claimed_usd : F
  pub hodl_value_usd : Option F
  pub il_vs_hodl_usd : Option F
  pub time_in_range_pct : Option F
  pub fee_apr_pct : Option F
  pub age_ms : F

pub record CompoundCostBasis (F : Type 0) : Type 0 where
  pub deposited_usd : F
  pub current_value_usd : F
  pub highest_value_usd : F

module _ {F : Type 0} ⦃n : Number F⦄ where
  unfoldable pub compute_hodl_value_usd : F → F → F → F → Option F
  compute_hodl_value_usd amount_x amount_y entry_price current_price =
      if not (entry_price >? int 0)
      then none
      else some (amount_x ⊗ (current_price ⊘ entry_price) ⊕ amount_y)

  abbrev year_ms : F
  year_ms = int 31536000000

  unfoldable pub compute_fee_apr_pct : F → F → F → Option F
  compute_fee_apr_pct fees cost_basis age =
      if (cost_basis ≤? int 0) || (age ≤? int 0)
      then none
      else some ((fees ⊘ cost_basis) ⊗ (year_ms ⊘ age) ⊗ int 100)

  abbrev out_of_range_ms : Option F → F → F
  out_of_range_ms none now = int 0
  out_of_range_ms (some since) now = max (int 0) (now ⊖ since)

  unfoldable pub compute_time_in_range_pct : F → Option F → F → Option F
  compute_time_in_range_pct age since now =
      if age ≤? int 0
      then none
      else some (max (int 0) (int 1 ⊖ out_of_range_ms since now ⊘ age) ⊗ int 100)

  -- With the entry legs and the current price only.
  abbrev hodl_value : Option F → Option F → Option F → Option F → Option F
  hodl_value (some price) (some x) (some y) (some current) =
      compute_hodl_value_usd x y price current
  hodl_value _ _ _ _ = none

  abbrev il_vs_hodl : F → Option F → Option F
  il_vs_hodl value none = none
  il_vs_hodl value (some hodl) = some (value ⊖ hodl)

  abbrev pub unrealized_pnl : PositionAnalyticsInput F → F
  unrealized_pnl i =
      i.current_value_usd
      ⊕ i.cumulative_fees_claimed_usd
      ⊕ (i.cumulative_rewards_claimed_usd or int 0)
      ⊖ i.deposited_usd

  unfoldable pub compute_position_analytics :
      PositionAnalyticsInput F → Option F → F → PositionAnalytics F
  unfolding compute_hodl_value_usd compute_time_in_range_pct compute_fee_apr_pct
  compute_position_analytics i current_price now =
      let age = max (int 0) (now ⊖ i.opened_at_ms) in
      let hodl =
        hodl_value i.entry_price_usd i.entry_amount_x_usd i.entry_amount_y_usd current_price in
      record {
        cost_basis_usd = i.deposited_usd;
        unrealized_pnl_usd = unrealized_pnl i;
        unrealized_pnl_pct =
            if i.deposited_usd >? int 0
            then (unrealized_pnl i ⊘ i.deposited_usd) ⊗ int 100
            else int 0;
        fees_claimed_usd = i.cumulative_fees_claimed_usd;
        rewards_claimed_usd = i.cumulative_rewards_claimed_usd or int 0;
        hodl_value_usd = hodl;
        il_vs_hodl_usd = il_vs_hodl i.current_value_usd hodl;
        time_in_range_pct = compute_time_in_range_pct age i.out_of_range_since_ms now;
        fee_apr_pct = compute_fee_apr_pct i.cumulative_fees_claimed_usd i.deposited_usd age;
        age_ms = age;
      }

  unfoldable pub apply_compound_to_cost_basis : F → F → Option F → F → CompoundCostBasis F
  apply_compound_to_cost_basis deposited current highest compounded = record {
    deposited_usd = deposited ⊕ compounded;
    current_value_usd = current ⊕ compounded;
    highest_value_usd = max (highest or deposited) (current ⊕ compounded);
  }

pub record ClaimedReward (F : Type 0) : Type 0 where
  pub mint : String
  pub amount_atomic : F
  pub amount_usd : Option F

pub record RewardClaimSummary (F : Type 0) : Type 0 where
  pub total_usd : F
  pub unpriced_count : ℕ
  pub total_count : ℕ

module _ {F : Type 0} ⦃n : Number F⦄ where
  -- One round of the loop on the running total and count.
  abbrev count_reward : Option F → F × ℕ → F × ℕ
  count_reward (some usd) (total, unpriced) = (total ⊕ usd, unpriced)
  count_reward none (total, unpriced) = (total, unpriced + 1)

  unfoldable pub sum_rewards : F × ℕ → List (ClaimedReward F) → F × ℕ
  sum_rewards acc [] = acc
  sum_rewards acc (r ∷ rs) = sum_rewards (count_reward r.amount_usd acc) rs

  unfoldable pub summarize_reward_claim : List (ClaimedReward F) → RewardClaimSummary F
  unfolding sum_rewards
  summarize_reward_claim rewards =
      let (total, unpriced) = sum_rewards (int 0, 0) rewards in
      record { total_usd = total; unpriced_count = unpriced; total_count = length rewards }
