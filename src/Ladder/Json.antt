-- ===== src/Ladder/Json.antt =====
-- `serializeTpLadder` and `parseTpLadder` of engine/tp-ladder.ts, and `evaluateExitFallenAngel` of
-- engine/program.ts without its messages. `JSON.stringify` and `JSON.parse` are parameters, between
-- strings and JSON values; a text that does not parse is `none`.
use beam_clmm.Prelude.{
  Bool, String, Option, List, ◌&&◌, if◌then◌else◌, ◌∷◌, some, none, [], not, str_eq, is_empty, ◌or◌,
}
use beam_clmm.Number.{Number, is_finite, ◌>?◌, int}
use beam_clmm.Ladder.{
  TpRung, TpLadder, sum_fractions, TpLadderEvaluation, evaluate_tp_ladder, ladder_of,
}

mutual
  pub data Json (F : Type 0) : Type 0 where
    null : Json F
    boolean : Bool → Json F
    number : F → Json F
    text : String → Json F
    array : Elements F → Json F
    object : Fields F → Json F

  pub data Elements (F : Type 0) : Type 0 where
    end : Elements F
    element : Json F → Elements F → Elements F

  pub data Fields (F : Type 0) : Type 0 where
    closed : Fields F
    field : String → Json F → Fields F → Fields F

module _ {F : Type 0} where
  unfoldable pub lookup_field : String → Fields F → Option (Json F)
  lookup_field key Fields.closed = none
  lookup_field key (Fields.field k v fs) =
      let rest = lookup_field key fs in if str_eq key k then some v else rest

  -- A property of a value that `isRecord` accepts.
  abbrev pub member : String → Json F → Option (Json F)
  member key (Json.object fs) = lookup_field key fs
  member key _ = none

  abbrev pub number_of : Option (Json F) → Option F
  number_of (some (Json.number x)) = some x
  number_of _ = none

  abbrev pub elements_of : Option (Json F) → Option (Elements F)
  elements_of (some (Json.array es)) = some es
  elements_of _ = none

  abbrev pub rung_json : TpRung F → Json F
  rung_json r = Json.object (
      Fields.field "targetPrice" (Json.number r.target_price)
        (Fields.field "fraction" (Json.number r.fraction) Fields.closed))

  unfoldable pub rung_elements : List (TpRung F) → Elements F
  rung_elements [] = Elements.end
  rung_elements (r ∷ rs) = Elements.element (rung_json r) (rung_elements rs)

  abbrev pub ladder_json : TpLadder F → Json F
  ladder_json l = Json.object (
      Fields.field "rungs" (Json.array (rung_elements l.rungs))
        (Fields.field "totalFraction" (Json.number l.total_fraction) Fields.closed))

  unfoldable pub serialize_tp_ladder : (Json F → String) → Option (TpLadder F) → Option String
  unfolding rung_elements
  serialize_tp_ladder json_stringify none = none
  serialize_tp_ladder json_stringify (some l) =
      if is_empty l.rungs then none else some (json_stringify (ladder_json l))

module _ {F : Type 0} ⦃n : Number F⦄ where
  -- What the filter of the parsed rungs asks for.
  abbrev pub is_usable : TpRung F → Bool
  is_usable r =
      is_finite r.target_price
      && (is_finite r.fraction && ((r.target_price >? int 0) && (r.fraction >? int 0)))

  abbrev pub usable_rung : Option F → Option F → Option (TpRung F)
  usable_rung (some t) (some f) =
      if is_usable (record { target_price = t; fraction = f })
      then some (record { target_price = t; fraction = f })
      else none
  usable_rung _ _ = none

  abbrev pub kept_rung : Json F → Option (TpRung F)
  kept_rung v = usable_rung (number_of (member "targetPrice" v)) (number_of (member "fraction" v))

  abbrev pub with_rung : Option (TpRung F) → List (TpRung F) → List (TpRung F)
  with_rung none rs = rs
  with_rung (some r) rs = r ∷ rs

  unfoldable pub kept_rungs : Elements F → List (TpRung F)
  unfolding lookup_field
  kept_rungs Elements.end = []
  kept_rungs (Elements.element v es) = with_rung (kept_rung v) (kept_rungs es)

  abbrev pub stored_ladder : List (TpRung F) → Option (TpLadder F)
  stored_ladder rs = if is_empty rs then none else some (ladder_of rs)

  abbrev pub ladder_of_elements : Option (Elements F) → Option (TpLadder F)
  ladder_of_elements none = none
  ladder_of_elements (some es) = stored_ladder (kept_rungs es)

  abbrev pub ladder_of_json : Option (Json F) → Option (TpLadder F)
  ladder_of_json none = none
  ladder_of_json (some v) = ladder_of_elements (elements_of (member "rungs" v))

  unfoldable pub parse_tp_ladder : (String → Option (Json F)) → Option String → Option (TpLadder F)
  unfolding kept_rungs sum_fractions lookup_field
  parse_tp_ladder json_parse none = none
  parse_tp_ladder json_parse (some raw) =
      if str_eq raw "" then none else ladder_of_json (json_parse raw)

pub data FallenAngelExit (F : Type 0) : Type 0 where
  takes_profit : F → F → FallenAngelExit F
  thesis_broken : FallenAngelExit F

module _ {F : Type 0} ⦃n : Number F⦄ (json_parse : String → Option (Json F)) where
  abbrev pub exit_of : TpLadderEvaluation F → Option (FallenAngelExit F)
  exit_of TpLadderEvaluation.waits = none
  exit_of (TpLadderEvaluation.takes_profit r scale_out last) =
      some (FallenAngelExit.takes_profit r.target_price scale_out)
  exit_of (TpLadderEvaluation.invalidates stop) = some FallenAngelExit.thesis_broken

  abbrev pub exit_on : F → Option (TpLadder F) → Option F → Option (FallenAngelExit F)
  exit_on price (some ladder) (some stop) = exit_of (evaluate_tp_ladder price ladder stop)
  exit_on price _ _ = none

  -- A position mode that is null or undefined is `none`.
  unfoldable pub evaluate_exit_fallen_angel :
      Bool → Option String → Option String → Option F → F → Option (FallenAngelExit F)
  unfolding parse_tp_ladder evaluate_tp_ladder
  evaluate_exit_fallen_angel enabled mode ladder_json stop price =
      if not enabled
      then none
      else if not (str_eq (mode or "") "fallen-angel")
      then none
      else exit_on price (parse_tp_ladder json_parse ladder_json) stop
