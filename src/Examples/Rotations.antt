-- ===== src/Examples/Rotations.antt =====
-- A rotation of one seat for one challenger, and an impaired seat, at concrete inputs.
use beam_clmm.Examples.Data.{num}
use beam_clmm.Prelude.{
  ◌≡◌, refl, some, none, true, List, [], ◌∷◌, ℕ, StringMap, All, ◌↔◌, map_get, filter,
}
use beam_clmm.Number.{lit}
use beam_clmm.Number.Order.{◌≼◌}
use beam_clmm.Number.Fixed.{Fixed, fixed_number, Fixed-IsOrdered}
use beam_clmm.Rotation.{
  Seat, Challenger, Candidate, RotationConfig, evaluate_rotation, rotate, candidate_pairs,
  qualifies, estimate_net_fee_velocity, resolve_config, decide_best, best_of, rotation_pair_key,
}
use beam_clmm.Rotation.Impairment.{
  assess_impaired, Excursion, exit, ShouldExit, rerange, ShouldRerange, IsAway, assess_impaired_iff,
}
use beam_clmm.Rotation.Choice.{qualified, IsJustified, evaluate_rotation-IsBest}
use beam_clmm.Prelude.Int.{◌-ℤ◌, quot, ◌*ℤ◌, ◌+ℤ◌}

abbrev weak : Seat Fixed
weak = record {
  pool = "A";
  apr = num 20;
  fee_density = lit 1 1;
  fees24h_usd = num 1000;
  position_share = lit 1 3;
  expected_in_range_pct = num 50;
  costs_per_day_usd = lit 1 1;
}

abbrev strong : Challenger Fixed
strong = record {
  seat = record weak { pool = "B"; apr = num 120; fee_density = lit 5 1; fees24h_usd = num 9000 };
  admissible = true;
}

abbrev config : RotationConfig Fixed
config = record {
  min_superiority_pct = none;
  min_apr_lead_pct = none;
  min_fee_density_lead_pct = none;
  required_confirmations = some 2;
  min_challenger_net_fees_usd_per_day = lit 1 1;
  switching_cost_usd = lit 2 1;
}

abbrev seen : StringMap ℕ
seen = ("A|B", 2) ∷ []

abbrev seats : List (Seat Fixed)
seats = weak ∷ []

abbrev challengers : List (Challenger Fixed)
challengers = strong ∷ []

rotates : evaluate_rotation seats challengers config seen ≡ rotate "A" "B"
unfolding evaluate_rotation candidate_pairs filter qualifies estimate_net_fee_velocity
    resolve_config ◌-ℤ◌ quot ◌*ℤ◌ ◌+ℤ◌ decide_best map_get best_of rotation_pair_key
rotates = refl

evaluate_rotation-IsBest_example :
    (k : Candidate Fixed) × IsJustified seats challengers config seen "A" "B" k
    × All (λ j. j.margin ≼ k.margin) (qualified seats challengers config seen)
unfolding candidate_pairs filter qualifies estimate_net_fee_velocity resolve_config ◌-ℤ◌ quot ◌*ℤ◌
    ◌+ℤ◌
evaluate_rotation-IsBest_example =
    evaluate_rotation-IsBest seats challengers config seen Fixed-IsOrdered "A" "B" (refl, tt)
      rotates

abbrev excursion : Excursion Fixed
excursion = record {
  price_distance_pct = num 40;
  rerange_cost_usd = lit 1 1;
  price_velocity_pct_per_day = num 2;
  accumulated_fees_usd = num 0;
  superior_challenger_available = true;
}

assess_impaired_iff_example :
    (((assess_impaired weak excursion config).action ≡ exit) ↔ ShouldExit weak excursion config)
    × (((assess_impaired weak excursion config).action ≡ rerange)
        ↔ ShouldRerange weak excursion config)
    × (((assess_impaired weak excursion config).impaired ≡ true) ↔ IsAway excursion)
assess_impaired_iff_example = assess_impaired_iff refl weak excursion config
