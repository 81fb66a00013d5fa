-- ===== src/Sizing/Budget.antt =====
-- engine/entry-sol-budget.ts: what an entry can use of the native token. `Math.ceil` is a parameter.
use beam_clmm.Prelude.{
  Bool, if◌then◌else◌, Option, String, not, false, ◌||◌, some, str_eq, ◌^◌, none,
}
use beam_clmm.Prelude.Int.{ℤ, pos}
use beam_clmm.Number.{Number, ◌⊗◌, lit, int, is_finite, ◌≤?◌, ◌⊘◌}
use beam_clmm.Settlement.Step.{native_mint}

abbrev pub is_native_leg : Option String → Bool
is_native_leg none = false
is_native_leg (some mint) = str_eq mint native_mint

abbrev pub has_native_sol_leg : Option String → Option String → Bool
has_native_sol_leg token_x token_y = is_native_leg token_x || is_native_leg token_y

abbrev free_entry_sol_lamports : ℤ → ℤ
free_entry_sol_lamports native_wei = native_wei

module _ {F : Type 0} ⦃n : Number F⦄ where
  abbrev entry_buffer_pct : F
  entry_buffer_pct = lit 101 2

  unfoldable pub usd_to_lamports : (F → F) → F → F → ℤ
  usd_to_lamports ceil usd price =
      if not (is_finite usd) || (usd ≤? int 0)
      then pos 0
      else if not (is_finite price) || (price ≤? int 0)
      then pos 0
      else n.to_big (ceil ((usd ⊘ price) ⊗ int (10 ^ 18)))

  abbrev leg_fraction : Bool → Bool → F
  leg_fraction has_leg funded = if funded then int 1 else if has_leg then lit 5 1 else int 0

  unfoldable pub estimate_entry_sol_lamports : (F → F) → F → F → Bool → Bool → ℤ
  unfolding usd_to_lamports
  estimate_entry_sol_lamports ceil size price has_leg funded =
      usd_to_lamports ceil (size ⊗ leg_fraction has_leg funded ⊗ entry_buffer_pct) price
