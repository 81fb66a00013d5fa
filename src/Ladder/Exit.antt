-- ===== src/Ladder/Exit.antt =====
-- When `evaluateExitFallenAngel` of engine/program.ts exits.
use beam_clmm.Prelude.{
  Bool, String, Option, ◌≡◌, false, some, true, str_eq, not, ◌or◌, sym, guards, refl, none,
  true_of_not,
}
use beam_clmm.Number.{Number, ◌≤?◌}
use beam_clmm.Ladder.{TpLadder, TpLadderEvaluation, TpRung}
use beam_clmm.Ladder.Json.{
  FallenAngelExit, Json, evaluate_exit_fallen_angel, exit_of, parse_tp_ladder, exit_on,
}
use beam_clmm.Ladder.Stored.{IsUsable, parse_tp_ladder-IsUsable}
use beam_clmm.Ladder.Reached.{IsOutcome, is_reached, is_price, evaluate_tp_ladder-IsOutcome}

module _ {F : Type 0} ⦃n : Number F⦄ (json_parse : String → Option (Json F)) where
  -- What an exit says of the price.
  abbrev pub IsExitAt : F → TpLadder F → F → FallenAngelExit F → Type 0
  IsExitAt price ladder stop (FallenAngelExit.takes_profit target scale_out) =
      ((price ≤? stop) ≡ false)
      × ((r : TpRung F) × (r.target_price ≡ target)
          × (r.fraction ≡ scale_out)
          × (is_reached price r ≡ true))
  IsExitAt price ladder stop FallenAngelExit.thesis_broken = (price ≤? stop) ≡ true

  -- What an exit stands on.
  pub record IsFallenAngelExit (enabled : Bool) (mode stored : Option String) (stop : Option F)
      (price : F) (e : FallenAngelExit F) : Type 0 where
    pub switched_on : enabled ≡ true
    pub fallen_angel : str_eq (mode or "") "fallen-angel" ≡ true
    pub ladder : TpLadder F
    pub level : F
    pub read_back : parse_tp_ladder json_parse stored ≡ some ladder
    pub usable : IsUsable ladder
    pub has_stop : stop ≡ some level
    pub real_price : is_price price ≡ true
    pub exit_at : IsExitAt price ladder level e

  exit_of-IsExitAt :
      (price : F) (ladder : TpLadder F) (stop : F) (o : TpLadderEvaluation F)
      (e : FallenAngelExit F)
      → IsOutcome price ladder stop o
      → exit_of json_parse o ≡ some e
      → (is_price price ≡ true) × IsExitAt price ladder stop e
  exit_of-IsExitAt price ladder stop TpLadderEvaluation.waits e m h = cc
  exit_of-IsExitAt price ladder stop (TpLadderEvaluation.takes_profit r s last) e
        (v, above, share, (i, there, ok, fail, l)) h =
      let same : FallenAngelExit.takes_profit r.target_price s ≡ e = cc h in
      rw (← same) (v, (above, (r, refl, sym share, ok)))
  exit_of-IsExitAt price ladder stop (TpLadderEvaluation.invalidates at) e (v, below, same_stop) h =
      let same : FallenAngelExit.thesis_broken ≡ e = cc h in rw (← same) (v, below)

  exit_on-IsFallenAngelExit :
      (enabled : Bool) (mode stored : Option String) (stop : Option F) (price : F)
      (e : FallenAngelExit F) (o : Option (TpLadder F))
      → enabled ≡ true
      → str_eq (mode or "") "fallen-angel" ≡ true
      → parse_tp_ladder json_parse stored ≡ o
      → exit_on json_parse price o stop ≡ some e
      → IsFallenAngelExit enabled mode stored stop price e
  exit_on-IsFallenAngelExit enabled mode stored stop price e none on fa read h = cc
  exit_on-IsFallenAngelExit enabled mode stored none price e (some l) on fa read h = cc
  exit_on-IsFallenAngelExit enabled mode stored (some level) price e (some l) on fa read h =
      let (v, at) =
        exit_of-IsExitAt price l level _ e (evaluate_tp_ladder-IsOutcome price l level) h in
      record {
        switched_on = on;
        fallen_angel = fa;
        ladder = l;
        level = level;
        read_back = read;
        usable = parse_tp_ladder-IsUsable json_parse stored l read;
        has_stop = refl;
        real_price = v;
        exit_at = at;
      }

  -- A fallen-angel exit is only made for a position of that mode while the mode is enabled, on a stored
  -- ladder that is usable, at a positive finite price: at the stop or below it because the thesis is
  -- broken, and above it because the price reached the target of a rung.
  pub evaluate_exit_fallen_angel-IsFallenAngelExit :
      (enabled : Bool) (mode stored : Option String) (stop : Option F) (price : F)
      (e : FallenAngelExit F)
      → evaluate_exit_fallen_angel json_parse enabled mode stored stop price ≡ some e
      → IsFallenAngelExit enabled mode stored stop price e
  unfolding evaluate_exit_fallen_angel
  evaluate_exit_fallen_angel-IsFallenAngelExit enabled mode stored stop price e h =
      guards (λ o. o ≡ some e → IsFallenAngelExit enabled mode stored stop price e) (not enabled)
        (not (str_eq (mode or "") "fallen-angel")) (λ off k. cc) (λ on other k. cc)
        (λ on fa k.
          exit_on-IsFallenAngelExit enabled mode stored stop price e _ (true_of_not on)
            (true_of_not fa) refl k)
        h
