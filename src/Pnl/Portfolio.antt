-- ===== src/Pnl/Portfolio.antt =====
-- `computePortfolioEquity` of engine/pnl.ts.
use beam_clmm.Prelude.{
  Bool, Option, filter, List, ◌or◌, false, ◌∷◌, ◌≡◌, refl, if◌then◌else◌, some, true, [], ◌⊎◌,
  Bool-cases, none, inr, inl,
}
use beam_clmm.Number.{Number, int, is_finite, ◌⊕◌, ◌>?◌, ◌⊖◌, ◌⊘◌, ◌⊗◌}

pub record EquityPosition (F : Type 0) : Type 0 where
  pub current_value_usd : F
  pub deposited_usd : F
  pub cumulative_fees_claimed_usd : F
  pub cumulative_rewards_claimed_usd : Option F

pub record PortfolioEquity (F : Type 0) : Type 0 where
  pub positions_value_usd : F
  pub wallet_balance_usd : F
  pub total_equity_usd : F
  pub total_deposited_usd : F
  pub total_fees_claimed_usd : F
  pub total_rewards_claimed_usd : F
  pub unrealized_pnl_usd : F
  pub unrealized_pnl_pct : F
  pub wallet_known : Bool

module _ {F : Type 0} ⦃n : Number F⦄ where
  -- A sum that passes over what is not finite.
  unfoldable pub sum_finite : (EquityPosition F → F) → F → List (EquityPosition F) → F
  sum_finite f sum [] = sum
  sum_finite f sum (p ∷ ps) = sum_finite f (if is_finite (f p) then sum ⊕ f p else sum) ps

  abbrev pub rewards_of : EquityPosition F → F
  rewards_of p = p.cumulative_rewards_claimed_usd or int 0

  abbrev wallet_of : Option F → F
  wallet_of none = int 0
  wallet_of (some w) = if is_finite w then w else int 0

  abbrev is_known : Option F → Bool
  is_known none = false
  is_known (some w) = is_finite w

  abbrev pub pnl_of : List (EquityPosition F) → F
  pnl_of ps =
      sum_finite (λ p. p.current_value_usd) (int 0) ps
      ⊕ sum_finite (λ p. p.cumulative_fees_claimed_usd) (int 0) ps
      ⊕ sum_finite rewards_of (int 0) ps
      ⊖ sum_finite (λ p. p.deposited_usd) (int 0) ps

  unfoldable pub compute_portfolio_equity : Option F → List (EquityPosition F) → PortfolioEquity F
  unfolding sum_finite
  compute_portfolio_equity wallet ps =
      let deposited = sum_finite (λ p. p.deposited_usd) (int 0) ps in
      record {
        positions_value_usd = sum_finite (λ p. p.current_value_usd) (int 0) ps;
        wallet_balance_usd = wallet_of wallet;
        total_equity_usd = sum_finite (λ p. p.current_value_usd) (int 0) ps ⊕ wallet_of wallet;
        total_deposited_usd = deposited;
        total_fees_claimed_usd = sum_finite (λ p. p.cumulative_fees_claimed_usd) (int 0) ps;
        total_rewards_claimed_usd = sum_finite rewards_of (int 0) ps;
        unrealized_pnl_usd = pnl_of ps;
        unrealized_pnl_pct =
            if deposited >? int 0 then (pnl_of ps ⊘ deposited) ⊗ int 100 else int 0;
        wallet_known = is_known wallet;
      }

  -- A reference for the sums: the finite figures alone, added up.
  unfoldable pub sum_all : (EquityPosition F → F) → F → List (EquityPosition F) → F
  sum_all f sum [] = sum
  sum_all f sum (p ∷ ps) = sum_all f (sum ⊕ f p) ps

  sum_finite-eq-sum_all :
      (f : EquityPosition F → F) (sum : F) (ps : List (EquityPosition F))
      → sum_finite f sum ps ≡ sum_all f sum (filter (λ p. is_finite (f p)) ps)
  unfolding sum_finite sum_all filter
  sum_finite-eq-sum_all f sum [] = refl
  sum_finite-eq-sum_all f sum (p ∷ ps) = elim (Bool-cases (is_finite (f p))) [
    | inl e ↦ rw (e) (sum_finite-eq-sum_all f (sum ⊕ f p) ps)
    | inr e ↦ rw (e) (sum_finite-eq-sum_all f sum ps)
  ]

  -- What the figures are: each sum is that of the finite figures alone, a wallet that cannot be read
  -- counts as zero, and profit and loss leave the wallet out.
  pub record IsEquity (wallet : Option F) (ps : List (EquityPosition F)) (e : PortfolioEquity F)
      : Type 0 where
    pub value :
        e.positions_value_usd
        ≡ sum_all
            (λ p. p.current_value_usd)
            (int 0)
            (filter (λ p. is_finite p.current_value_usd) ps)
    pub deposits :
        e.total_deposited_usd
        ≡ sum_all (λ p. p.deposited_usd) (int 0) (filter (λ p. is_finite p.deposited_usd) ps)
    pub fees :
        e.total_fees_claimed_usd
        ≡ sum_all
            (λ p. p.cumulative_fees_claimed_usd)
            (int 0)
            (filter (λ p. is_finite p.cumulative_fees_claimed_usd) ps)
    pub rewards :
        e.total_rewards_claimed_usd
        ≡ sum_all rewards_of (int 0) (filter (λ p. is_finite (rewards_of p)) ps)
    pub equity : e.total_equity_usd ≡ (e.positions_value_usd ⊕ e.wallet_balance_usd)
    pub pnl : e.unrealized_pnl_usd ≡ (
        e.positions_value_usd ⊕ e.total_fees_claimed_usd ⊕ e.total_rewards_claimed_usd
        ⊖ e.total_deposited_usd)
    pub unread_wallet : (e.wallet_known ≡ true) ⊎ (e.wallet_balance_usd ≡ int 0)

  unread : (wallet : Option F) → (is_known wallet ≡ true) ⊎ (wallet_of wallet ≡ int 0)
  unread none = inr refl
  unread (some w) = elim (Bool-cases (is_finite w)) [ inl e ↦ inl e | inr e ↦ inr (rw e refl) ]

  -- The equity of a portfolio: every sum is that of the finite figures alone, the equity adds the
  -- wallet, which counts as zero when it cannot be read, and the profit leaves the wallet out.
  pub compute_portfolio_equity-IsEquity :
      (wallet : Option F) (ps : List (EquityPosition F))
      → IsEquity wallet ps (compute_portfolio_equity wallet ps)
  unfolding compute_portfolio_equity
  compute_portfolio_equity-IsEquity wallet ps = record {
    value = sum_finite-eq-sum_all (λ p. p.current_value_usd) (int 0) ps;
    deposits = sum_finite-eq-sum_all (λ p. p.deposited_usd) (int 0) ps;
    fees = sum_finite-eq-sum_all (λ p. p.cumulative_fees_claimed_usd) (int 0) ps;
    rewards = sum_finite-eq-sum_all rewards_of (int 0) ps;
    equity = refl;
    pnl = refl;
    unread_wallet = unread wallet;
  }

  -- The profit does not depend on the wallet's balance, known or not.
  pub portfolio_pnl_without_wallet :
      (wallet wallet' : Option F) (ps : List (EquityPosition F))
      → (compute_portfolio_equity wallet ps).unrealized_pnl_usd
        ≡ (compute_portfolio_equity wallet' ps).unrealized_pnl_usd
  unfolding compute_portfolio_equity
  portfolio_pnl_without_wallet wallet wallet' ps = refl
