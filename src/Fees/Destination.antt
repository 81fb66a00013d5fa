-- ===== src/Fees/Destination.antt =====
-- Where claimed fees go, and the account of their conversion: engine/fee-destination.ts. An exception
-- is the left side of a sum; a mint or a signature that is an empty string counts as absent.
use beam_clmm.Prelude.{
  Bool, Option, List, if◌then◌else◌, ◌||◌, ◌&&◌, not, true, ◌⊎◌, some, String, all, inr, ℕ, str_eq,
  none, ◌∷◌, ◌≡◌, inl, ◌+◌, [], ◌==◌, arith, Bool-cases, refl, filter, map, ◌or◌, ap,
}
use beam_clmm.Prelude.Int.{ℤ, pos, ltb_ℤ, plus_part, leb_ℤ, ◌+ℤ◌, negsuc}
use beam_clmm.Number.{Number, is_finite, ◌>?◌, int}

pub data AccumulationDestination : Type 0 where
  accumulate_quote accumulate_native : AccumulationDestination

-- `FeeDestination` of the configuration
pub data FeeDestination : Type 0 where
  to_compound : FeeDestination
  to_accumulate : AccumulationDestination → FeeDestination

pub data FeeRouting : Type 0 where
  compound : FeeRouting
  accumulate : AccumulationDestination → FeeRouting

unfoldable pub route_claimed_fees : Option FeeDestination → FeeRouting
route_claimed_fees none = compound
route_claimed_fees (some to_compound) = compound
route_claimed_fees (some (to_accumulate d)) = accumulate d

module _ {F : Type 0} ⦃n : Number F⦄ where
  unfoldable pub can_convert_fee_amounts : F → F → Bool
  can_convert_fee_amounts x y = is_finite x && (is_finite y && ((x >? int 0) || (y >? int 0)))

pub record FeeSwap : Type 0 where
  pub input_mint : String
  pub amount_atomic : ℤ
  pub output_atomic : ℤ
  pub signature : Option String

pub record AccumulationSummary : Type 0 where
  pub destination : AccumulationDestination
  pub output_atomic : ℤ
  pub tx_signatures : List String

pub data FeeError : Type 0 where
  invalid_fee_conversion_output no_fee_conversion_output : FeeError

abbrev pub is_empty : String → Bool
is_empty s = str_eq s ""

-- The callback of `reduce`, run from the left; its exception ends the run.
unfoldable pub add_outputs : ℤ → List FeeSwap → FeeError ⊎ ℤ
add_outputs total [] = inr total
add_outputs total (swap ∷ swaps) =
    let rest = add_outputs (total +ℤ swap.output_atomic) swaps in
    if leb_ℤ swap.output_atomic (pos 0) || is_empty swap.input_mint
    then inl invalid_fee_conversion_output
    else rest

unfoldable pub signatures : List FeeSwap → List String
signatures [] = []
signatures (swap ∷ swaps) = elim swap.signature [
  | none ↦ signatures swaps
  | some s ↦ if is_empty s then signatures swaps else s ∷ signatures swaps
]

unfoldable pub summarize_accumulation :
    AccumulationDestination → List FeeSwap → String → FeeError ⊎ AccumulationSummary
summarize_accumulation d swaps target = elim (add_outputs (pos 0) swaps) [
  | inl e ↦ inl e
  | inr total ↦
      if (leb_ℤ total (pos 0) && leb_ℤ (pos 0) total) || is_empty target
      then inl no_fee_conversion_output
      else inr (record { destination = d; output_atomic = total; tx_signatures = signatures swaps })
]

-- A swap that names its mint and brought something in.
abbrev pub is_converted : FeeSwap → Bool
is_converted swap = ltb_ℤ (pos 0) swap.output_atomic && not (is_empty swap.input_mint)

-- What the swaps brought in together.
unfoldable pub total_output : List FeeSwap → ℕ
total_output [] = 0
total_output (swap ∷ swaps) = plus_part swap.output_atomic + total_output swaps

grow : (n : ℕ) (z : ℤ) → ltb_ℤ (pos 0) z ≡ true → pos n +ℤ z ≡ pos (n + plus_part z)
unfolding ◌+ℤ◌
grow n (pos m) h = ground arith
grow n (negsuc m) h = ground arith

leb-eq-not-ltb : (z : ℤ) → leb_ℤ z (pos 0) ≡ not (ltb_ℤ (pos 0) z)
leb-eq-not-ltb (pos m) = ground arith
leb-eq-not-ltb (negsuc m) = ground arith

add_outputs-eq :
    (n : ℕ) (swaps : List FeeSwap)
    → add_outputs (pos n) swaps ≡ (
        if all is_converted swaps
        then inr (pos (n + total_output swaps))
        else inl invalid_fee_conversion_output)
unfolding add_outputs total_output all
add_outputs-eq n [] = let e : n + 0 ≡ n = omega arith in rw e refl
add_outputs-eq n (swap ∷ swaps) = elim (Bool-cases (ltb_ℤ (pos 0) swap.output_atomic)) [
  | inl e ↦
      let g = grow n swap.output_atomic e in
      let a : n + (plus_part swap.output_atomic + total_output swaps)
          ≡ n + plus_part swap.output_atomic + total_output swaps =
        omega arith in
      rw (g, add_outputs-eq (n + plus_part swap.output_atomic) swaps, a)
        (ground (arith, leb-eq-not-ltb swap.output_atomic))
  | inr e ↦ ground (arith, leb-eq-not-ltb swap.output_atomic)
]

signatures-eq :
    (swaps : List FeeSwap)
    → signatures swaps ≡ filter (λ s. not (is_empty s)) (map (λ swap. swap.signature or "") swaps)
unfolding signatures filter
signatures-eq [] = refl
signatures-eq (swap ∷ swaps) = signed swap.signature (signatures-eq swaps)
  where
    signed :
        (s : Option String)
        → signatures swaps
          ≡ filter (λ s. not (is_empty s)) (map (λ swap. swap.signature or "") swaps)
        → elim s [
          | none ↦ signatures swaps
          | some s ↦ if is_empty s then signatures swaps else s ∷ signatures swaps
        ]
          ≡ filter (λ s. not (is_empty s)) ((s or "") ∷ map (λ swap. swap.signature or "") swaps)
    signed none e = e
    signed (some s) e = elim (Bool-cases (is_empty s)) [
      | inl b ↦ rw b e
      | inr b ↦ rw b (ap (◌∷◌ s) e)
    ]

-- A conversion of claimed fees is accounted for exactly when every swap names its mint and brought
-- something in, at least one swap took place and the target mint is named; the summary then holds the
-- destination, the sum of what all swaps brought in, and the signatures that are present, in order.
-- Otherwise the error says whether a swap or the whole was at fault.
pub summarize_accumulation-eq :
    (d : AccumulationDestination) (swaps : List FeeSwap) (target : String)
    → summarize_accumulation d swaps target ≡ (
        if all is_converted swaps
        then (if total_output swaps == 0 || is_empty target
            then inl no_fee_conversion_output
            else inr (record {
              destination = d;
              output_atomic = pos (total_output swaps);
              tx_signatures =
                  filter (λ s. not (is_empty s)) (map (λ swap. swap.signature or "") swaps);
            }))
        else inl invalid_fee_conversion_output)
unfolding summarize_accumulation
summarize_accumulation-eq d swaps target = elim (Bool-cases (all is_converted swaps)) [
  | inl e ↦
      rw (summarize_accumulation, add_outputs-eq 0 swaps, e, signatures-eq swaps) (ground arith)
  | inr e ↦ rw (summarize_accumulation, add_outputs-eq 0 swaps, e) refl
]
