-- ===== src/Sizing/Gas.antt =====
-- `entryBudgetWei` of engine/gas-reserve.ts. A bigint is an integer; its division truncates.
use Prim.Native.Nat.{max as max_nat}
use beam_clmm.Number.{Number, int, is_finite, ◌≥?◌, floor}
use beam_clmm.Prelude.Int.{ℤ, ◌*ℤ◌, quot, ◌-ℤ◌, pos, leb_ℤ, ltb_ℤ, plus_part, negsuc}
use beam_clmm.Prelude.{ℕ, Option, ◌≡◌, ◌*◌, if◌then◌else◌, ◌or◌, ◌-◌, arith, ◌/◌, ◌&&◌, refl}
use beam_clmm.Number.Order.{IsOrdered}

abbrev clamp_emergency : ℤ → ℤ
clamp_emergency e = if ltb_ℤ e (pos 0) then pos 0 else e

abbrev larger : ℤ → ℤ → ℤ
larger a b = if ltb_ℤ b a then a else b

times_pos : (a b : ℕ) → pos a *ℤ pos b ≡ pos (a * b)
unfolding ◌*ℤ◌
times_pos a b = ground arith

quot_pos : (a d : ℕ) → quot (pos a) d ≡ pos (a / d)
unfolding quot
quot_pos a d = refl

larger_clamped :
    (a : ℕ) (e : ℤ) → larger (pos a) (clamp_emergency e) ≡ pos (max_nat a (plus_part e))
larger_clamped a (pos e) = ground arith
larger_clamped a (negsuc e) = ground arith

minus_pos :
    (a b : ℕ)
    → (if leb_ℤ (pos a) (pos 0)
        then pos 0
        else if ltb_ℤ (pos 0) (pos a -ℤ pos b)
        then pos a -ℤ pos b
        else pos 0)
      ≡ pos (a - b)
unfolding ◌-ℤ◌
minus_pos a b = ground arith

budget_of :
    (balance pct : ℕ) (emergency : ℤ)
    → let spendable =
        pos balance -ℤ larger (quot (pos balance *ℤ pos pct) 100) (clamp_emergency emergency) in
      (if leb_ℤ (pos balance) (pos 0)
        then pos 0
        else if ltb_ℤ (pos 0) spendable
        then spendable
        else pos 0)
      ≡ pos (balance - max_nat (balance * pct / 100) (plus_part emergency))
budget_of balance pct emergency =
    rw
      (
        times_pos balance pct,
        quot_pos (balance * pct) 100,
        larger_clamped (balance * pct / 100) emergency,
      )
      (minus_pos balance (max_nat (balance * pct / 100) (plus_part emergency)))

module _ {F : Type 0} ⦃n : Number F⦄ where
  -- The reserve in whole percent: the option's whole part, or ten where that makes no sense.
  unfoldable pub whole_pct : Option F → ℤ
  whole_pct reserve_pct =
      let pct = reserve_pct or int 10 in
      if is_finite pct && (pct ≥? int 0) then n.to_big (floor pct) else pos 10

  unfoldable pub entry_budget_wei : ℤ → Option F → Option ℤ → ℤ
  entry_budget_wei balance reserve_pct emergency_exit_wei =
      let by_pct = quot (balance *ℤ whole_pct reserve_pct) 100 in
      let emergency = clamp_emergency (emergency_exit_wei or pos 0) in
      let reserve = larger by_pct emergency in
      let spendable = balance -ℤ reserve in
      if leb_ℤ balance (pos 0) then pos 0 else if ltb_ℤ (pos 0) spendable then spendable else pos 0

  -- What must stay in the wallet: the share of the balance or the emergency exit, if that is more.
  abbrev pub reserve_of : ℕ → Option F → Option ℤ → ℕ
  reserve_of balance reserve_pct emergency =
      max_nat (balance * plus_part (whole_pct reserve_pct) / 100) (plus_part (emergency or pos 0))

  whole_pct-pos :
      IsOrdered F
      → (reserve_pct : Option F) → whole_pct reserve_pct ≡ pos (plus_part (whole_pct reserve_pct))
  unfolding whole_pct
  whole_pct-pos laws reserve_pct =
      let pct = reserve_pct or int 10 in ground (arith, laws.to_big-floor pct)

  -- The budget is what the reserve leaves of the balance, and nothing if the reserve is the larger or
  -- the balance is negative; the reserve is the larger of the emergency amount and the whole
  -- percentage of the balance, rounded down.
  entry_budget_wei-eq :
      IsOrdered F
      → (balance : ℤ) (reserve_pct : Option F) (emergency : Option ℤ)
      → entry_budget_wei balance reserve_pct emergency
        ≡ pos (plus_part balance - reserve_of (plus_part balance) reserve_pct emergency)
  unfolding entry_budget_wei
  entry_budget_wei-eq laws (pos balance) reserve_pct emergency =
      rw (whole_pct-pos laws reserve_pct)
        (budget_of balance (plus_part (whole_pct reserve_pct)) (emergency or pos 0))
  entry_budget_wei-eq laws (negsuc debt) reserve_pct emergency = ground arith
