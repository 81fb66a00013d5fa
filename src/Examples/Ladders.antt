-- ===== src/Examples/Ladders.antt =====
-- Ladders and retries at concrete inputs.
use beam_clmm.Prelude.{
  some, none, false, [], ◌∷◌, refl, get_elem?, String, Option, ◌≡◌, ℕ, str_eq, ◌==◌, if◌then◌else◌,
  ltb, length, sort_by, insert_by, find_index,
}
use beam_clmm.Examples.Data.{num}
use beam_clmm.Number.Fixed.{Fixed, fixed_number, Fixed-IsOrdered}
use beam_clmm.Number.FixedRounding.{Fixed-IsRounded}
use beam_clmm.Ladder.{TpLadder, TpLadderConfig, sum_fractions, build_tp_ladder, evaluate_tp_ladder}
use beam_clmm.Ladder.Json.{Json, ladder_json, parse_tp_ladder, serialize_tp_ladder}
use beam_clmm.Retry.{
  Outcome, RpcError, Texts, Attempts, default_retry_options, retry_effect_with_backoff,
}
use beam_clmm.Number.{lit}
use beam_clmm.Retry.Loop.{RunsFrom, retry_effect_with_backoff-RunsFrom}
use beam_clmm.Ladder.Stored.{IsUsable, parse_tp_ladder-serialize_tp_ladder}
use beam_clmm.Ladder.Order.{built_ladder_takes_lowest}
use beam_clmm.Prelude.Int.{◌+ℤ◌, quot, ◌*ℤ◌, ◌-ℤ◌}

abbrev two_rungs : TpLadder Fixed
two_rungs = record {
  rungs =
      record { target_price = num 110; fraction = lit 4 1 }
      ∷ record { target_price = num 150; fraction = lit 6 1 }
      ∷ [];
  total_fraction = num 1;
}

-- An encoding that knows this one ladder.
abbrev write_json : Json Fixed → String
write_json value = "ladder"

abbrev read_json : String → Option (Json Fixed)
read_json text = if str_eq text "ladder" then some (ladder_json two_rungs) else none

two_rungs-IsUsable : IsUsable two_rungs
unfolding sum_fractions ◌+ℤ◌
two_rungs-IsUsable = record { has_rung = refl; usable_rungs = (refl, (refl, tt)); sums = refl }

parse_tp_ladder-serialize_tp_ladder_example :
    parse_tp_ladder read_json (serialize_tp_ladder write_json (some two_rungs)) ≡ some two_rungs
parse_tp_ladder-serialize_tp_ladder_example =
    parse_tp_ladder-serialize_tp_ladder read_json write_json two_rungs refl refl two_rungs-IsUsable

-- The farther rung is configured first.
abbrev rung_config : TpLadderConfig Fixed
rung_config = record {
  rung_pcts = lit 5 1 ∷ lit 1 1 ∷ [];
  fractions = lit 6 1 ∷ lit 4 1 ∷ [];
  invalidation_stop_pct = lit 25 2;
}

built_ladder_takes_lowest_example :
    (get_elem? two_rungs.rungs 0 ≡ some (record { target_price = num 110; fraction = lit 4 1 }))
    × (false ≡ (1 == length two_rungs.rungs))
unfolding build_tp_ladder sort_by quot insert_by ◌*ℤ◌ ◌-ℤ◌ ◌+ℤ◌ evaluate_tp_ladder find_index
built_ladder_takes_lowest_example =
    built_ladder_takes_lowest Fixed-IsOrdered Fixed-IsRounded (num 100) rung_config two_rungs
      (num 75) (num 160) (num 75) (record { target_price = num 110; fraction = lit 4 1 }) (lit 4 1)
      false (refl, (refl, tt)) refl refl

abbrev texts : Texts Fixed
texts = record {
  to_lower_case = λ s. s;
  includes = λ s t. str_eq s t;
  number_text = λ x. "1";
  parse_number = λ s. num 1;
  parse_date = λ s. num 0;
}

abbrev too_many : RpcError Fixed
too_many = record { code = some (num 429); message = none; headers = none; response_headers = none }

-- The effect fails twice and then succeeds.
abbrev third_time : Attempts Fixed ℕ
third_time = record {
  outcome = λ k. if ltb k 2 then Outcome.failed too_many else Outcome.succeeded 7;
  random = λ k. lit 5 1;
  now = λ k. num 0;
}

retry_effect_with_backoff-RunsFrom_example :
    RunsFrom texts default_retry_options third_time 0
      (retry_effect_with_backoff texts default_retry_options third_time)
retry_effect_with_backoff-RunsFrom_example =
    retry_effect_with_backoff-RunsFrom texts default_retry_options third_time
