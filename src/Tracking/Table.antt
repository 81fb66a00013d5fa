-- ===== src/Tracking/Table.antt =====
-- The positions table of engine/db-service.ts, as the statements that the engine sends to it change it.
-- The ids are its primary key.
use beam_clmm.Prelude.{
  ◌∷◌, [], none, some, String, Option, ℕ, Bool, ◌or_else◌, StringMap, ◌≡◌, if◌then◌else◌,
  map_remove, map_get, is_none, map_set, true, false, refl, not, Bool-cases, str_eq, ◌&&◌,
  map_get-set, inl, inr, true_of_not, ◌∙◌, ap,
}
use beam_clmm.Tracking.{PositionRecord}
use beam_clmm.Prelude.Int.{ℤ}

or_else_same : {A : Type 0} (o : Option A) → (o or_else o) ≡ o
or_else_same none = refl
or_else_same (some a) = refl

module _ {F : Type 0} where
  -- `INSERT ... ON CONFLICT(position_id) DO UPDATE`, where COALESCE keeps an old value for a null.
  unfoldable pub upserted : Option (PositionRecord F) → PositionRecord F → PositionRecord F
  upserted none p = p
  upserted (some old) p = record p {
    position_pub_key = p.position_pub_key or_else old.position_pub_key;
    entry_price_usd = p.entry_price_usd or_else old.entry_price_usd;
    entry_amount_x_usd = p.entry_amount_x_usd or_else old.entry_amount_x_usd;
    entry_amount_y_usd = p.entry_amount_y_usd or_else old.entry_amount_y_usd;
    position_mode = p.position_mode or_else old.position_mode;
    tp_ladder_json = p.tp_ladder_json or_else old.tp_ladder_json;
    invalidation_stop_price = p.invalidation_stop_price or_else old.invalidation_stop_price;
  }

  unfoldable pub save_position :
      PositionRecord F → StringMap (PositionRecord F) → StringMap (PositionRecord F)
  save_position p rows = map_set p.position_id (upserted (map_get p.position_id rows) p) rows

  abbrev pub delete_position : String → StringMap (PositionRecord F) → StringMap (PositionRecord F)
  delete_position id rows = map_remove id rows

  -- `UPDATE ... SET closed_at, realized_pnl_usd WHERE position_id`.
  unfoldable pub close_position :
      String → Option F → ℕ → StringMap (PositionRecord F) → StringMap (PositionRecord F)
  close_position id realized now [] = []
  close_position id realized now ((k, p) ∷ rows) =
      let rest = close_position id realized now rows in
      (k, if str_eq k id then record p { closed_at = some now; realized_pnl_usd = realized } else p)
      ∷ rest

  -- The condition of `getAllPositions`.
  abbrev pub is_open_row : PositionRecord F → Bool
  is_open_row p = is_none p.paper_exited_at && is_none p.closed_at

  abbrev pub open_row : Option (PositionRecord F) → Option (PositionRecord F)
  open_row none = none
  open_row (some p) = if is_open_row p then some p else none

  abbrev pub is_closed_row : Option (PositionRecord F) → Bool
  is_closed_row none = false
  is_closed_row (some p) = not (is_open_row p)

  -- Saving a record that has the row's own values where null keeps the row's leaves it as it is.
  pub upserted_same :
      (p : PositionRecord F) (lower upper : ℤ)
      → upserted (some p) (record p { lower_bin_id = lower; upper_bin_id = upper })
        ≡ record p { lower_bin_id = lower; upper_bin_id = upper }
  unfolding upserted
  upserted_same p lower upper = simp (
    or_else_same p.position_pub_key,
    or_else_same p.entry_price_usd,
    or_else_same p.entry_amount_x_usd,
    or_else_same p.entry_amount_y_usd,
    or_else_same p.position_mode,
    or_else_same p.tp_ladder_json,
    or_else_same p.invalidation_stop_price,
  )

  pub map_get-save_position :
      (p : PositionRecord F) (k : String) (rows : StringMap (PositionRecord F))
      → map_get k (save_position p rows) ≡ (
          if str_eq p.position_id k
          then some (upserted (map_get p.position_id rows) p)
          else map_get k rows)
  unfolding save_position
  map_get-save_position p k rows =
      map_get-set p.position_id k (upserted (map_get p.position_id rows) p) rows

  pub open_row-some :
      (o : Option (PositionRecord F)) (p : PositionRecord F)
      → open_row o ≡ some p
      → (o ≡ some p) × (is_open_row p ≡ true)
  open_row-some none p h = cc
  open_row-some (some q) p h = elim (Bool-cases (is_open_row q)) [
    | inl e ↦ let s : some q ≡ some p = rw e at h in let r : q ≡ p = cc s in (s, rw (← r) e)
    | inr e ↦ let s : ◌≡◌ {A = Option (PositionRecord F)} none (some p) = rw e at h in cc
  ]

  pub open_row-none :
      (o : Option (PositionRecord F)) → open_row o ≡ none → is_closed_row o ≡ false → o ≡ none
  open_row-none none h c = refl
  open_row-none (some q) h c = let e = true_of_not c in let s : some q ≡ none = rw e at h in s

  pub open_row_open : (p : PositionRecord F) → is_open_row p ≡ true → open_row (some p) ≡ some p
  open_row_open p h = rw h refl

  pub opened_if :
      (c : Bool) (o : Option (PositionRecord F))
      → open_row (if c then none else o) ≡ (if c then none else open_row o)
  opened_if true o = refl
  opened_if false o = refl

  pub opened_by :
      (c : Bool) (o : Option (PositionRecord F)) (p : PositionRecord F)
      → is_open_row p ≡ true
      → open_row (if c then some p else o) ≡ (if c then some p else open_row o)
  opened_by true o p h = open_row_open p h
  opened_by false o p h = refl

  pub closed_if :
      (c : Bool) (o v : Option (PositionRecord F))
      → is_closed_row v ≡ false
      → is_closed_row o ≡ false
      → is_closed_row (if c then v else o) ≡ false
  closed_if true o v h k = h
  closed_if false o v h k = k

  pub stored :
      (p : PositionRecord F) (rows : StringMap (PositionRecord F)) (k : String)
      → upserted (map_get p.position_id rows) p ≡ p
      → map_get k (save_position p rows)
        ≡ (if str_eq p.position_id k then some p else map_get k rows)
  stored p rows k h =
      map_get-save_position p k rows
      ∙ ap (λ r. if str_eq p.position_id k then some r else map_get k rows) h
