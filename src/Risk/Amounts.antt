-- ===== src/Risk/Amounts.antt =====
-- `getTokenDecimals` and `tokenAmountToUsd` of engine/risk-service.ts. `toUpperCase` is a parameter.
use beam_clmm.Prelude.{
  String, Option, ℕ, str_eq, if◌then◌else◌, ◌||◌, some, ◌≡◌, false, none, ◌^◌, arith, str_eq_iff,
  Bool-cases, inl, inr,
}
use beam_clmm.Number.{Number, ◌≟◌, int, ◌⊘◌, ◌⊗◌}

module _ (to_upper_case : String → String) where
  -- -1 in the source is `none`.
  unfoldable pub get_token_decimals : String → Option ℕ
  get_token_decimals symbol =
      let upper = to_upper_case symbol in
      if str_eq upper "SOL" || str_eq upper "WSOL"
      then some 9
      else if str_eq upper "USDC" || str_eq upper "USDT"
      then some 6
      else none

  module _ {F : Type 0} ⦃n : Number F⦄ where
    abbrev amount_at : Option ℕ → F → String → F → F
    amount_at none raw upper price = int 0
    amount_at (some decimals) raw upper price =
        let human = raw ⊘ int (10 ^ decimals) in
        if str_eq upper "USDC" || str_eq upper "USDT" then human else human ⊗ price

    -- The number `-1 < 0` test is the match on `none`.
    unfoldable pub token_amount_to_usd : F → String → F → F
    unfolding get_token_decimals
    token_amount_to_usd raw symbol price =
        if raw ≟ int 0
        then int 0
        else amount_at (get_token_decimals symbol) raw (to_upper_case symbol) price

    -- A symbol outside the four that are supported is worth nothing, whatever the amount and the
    -- price; a supported one is priced at par or at the native price, with its own decimals. (The
    -- amount is not zero.)
    token_amount_to_usd_cases :
        (raw : F) (symbol : String) (price : F)
        → (raw ≟ int 0) ≡ false
        → let upper = to_upper_case symbol in
          token_amount_to_usd raw symbol price ≡ (
            if str_eq upper "SOL" || str_eq upper "WSOL"
            then raw ⊘ int (10 ^ 9) ⊗ price
            else if str_eq upper "USDC" || str_eq upper "USDT"
            then raw ⊘ int (10 ^ 6)
            else int 0)
    unfolding token_amount_to_usd get_token_decimals
    token_amount_to_usd_cases raw symbol price h =
        let upper = to_upper_case symbol in
        elim (Bool-cases (str_eq upper "SOL")) [
          | inl e ↦
              let u : upper ≡ "SOL" = ground (arith, str_eq_iff upper "SOL") in
              rw (h, u, token_amount_to_usd, get_token_decimals)
          | inr e ↦ elim (Bool-cases (str_eq upper "WSOL")) [
            | inl e' ↦
                let u : upper ≡ "WSOL" = ground (arith, str_eq_iff upper "WSOL") in
                rw (h, u, token_amount_to_usd, get_token_decimals)
            | inr e' ↦ ground arith
          ]
        ]
