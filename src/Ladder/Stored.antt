-- ===== src/Ladder/Stored.antt =====
-- What is stored of a ladder is what is read back: engine/tp-ladder.ts.
use beam_clmm.Prelude.{
  List, is_empty, Option, String, All, ◌≡◌, false, some, true, none, ◌∷◌, [], Bool-cases, refl, inl,
  inr, str_eq, str_eq_iff,
}
use beam_clmm.Number.{Number, int}
use beam_clmm.Ladder.{TpRung, TpLadder, sum_fractions, ladder_of}
use beam_clmm.Ladder.Json.{
  kept_rungs, Elements, rung_elements, Json, is_usable, lookup_field, parse_tp_ladder,
  serialize_tp_ladder, stored_ladder, with_rung, usable_rung, ladder_json, ladder_of_elements,
  ladder_of_json, elements_of, member,
}

module _ {F : Type 0} ⦃n : Number F⦄ where
  -- A ladder that a stored text may hold.
  pub record IsUsable (l : TpLadder F) : Type 0 where
    pub has_rung : is_empty l.rungs ≡ false
    pub usable_rungs : All (λ r. is_usable r ≡ true) l.rungs
    pub sums : l.total_fraction ≡ sum_fractions (int 0) l.rungs

  usable_rung-All :
      (t f : Option F) (rs : List (TpRung F))
      → All (λ r. is_usable r ≡ true) rs
      → All (λ r. is_usable r ≡ true) (with_rung (usable_rung t f) rs)
  usable_rung-All none f rs q = q
  usable_rung-All (some t) none rs q = q
  usable_rung-All (some t) (some f) rs q =
      elim (Bool-cases (is_usable (record { target_price = t; fraction = f }))) [
        | inl e ↦ rw e (e, q)
        | inr e ↦ rw e q
      ]

  kept_rungs-All : (es : Elements F) → All (λ r. is_usable r ≡ true) (kept_rungs es)
  unfolding kept_rungs
  kept_rungs-All Elements.end = tt
  kept_rungs-All (Elements.element v es) = usable_rung-All _ _ _ (kept_rungs-All es)

  kept_rungs-rung_elements :
      (rs : List (TpRung F)) → All (λ r. is_usable r ≡ true) rs → kept_rungs (rung_elements rs) ≡ rs
  unfolding kept_rungs rung_elements lookup_field
  kept_rungs-rung_elements [] q = refl
  kept_rungs-rung_elements (r ∷ rs) (q, qs) = rw (q, kept_rungs-rung_elements rs qs) refl

  stored_ladder-IsUsable :
      (rs : List (TpRung F)) (l : TpLadder F)
      → All (λ r. is_usable r ≡ true) rs
      → stored_ladder rs ≡ some l
      → IsUsable l
  stored_ladder-IsUsable [] l q h = cc
  stored_ladder-IsUsable (r ∷ rs) l q h =
      let e : ladder_of (r ∷ rs) ≡ l = cc h in
      rw (← e) (record { has_rung = refl; usable_rungs = q; sums = refl })

  ladder_of_elements-IsUsable :
      (es : Option (Elements F)) (l : TpLadder F) → ladder_of_elements es ≡ some l → IsUsable l
  ladder_of_elements-IsUsable none l h = cc
  ladder_of_elements-IsUsable (some es) l h =
      stored_ladder-IsUsable (kept_rungs es) l (kept_rungs-All es) h

  ladder_of_json-IsUsable :
      (v : Option (Json F)) (l : TpLadder F) → ladder_of_json v ≡ some l → IsUsable l
  ladder_of_json-IsUsable none l h = cc
  ladder_of_json-IsUsable (some v) l h =
      ladder_of_elements-IsUsable (elements_of (member "rungs" v)) l h

  ladder_of_json-ladder_json :
      (l : TpLadder F) → IsUsable l → ladder_of_json (some (ladder_json l)) ≡ some l
  unfolding lookup_field
  ladder_of_json-ladder_json l u =
      rw (kept_rungs-rung_elements l.rungs u.usable_rungs, u.has_rung, ← u.sums) refl

  module _ (json_parse : String → Option (Json F)) where
    -- A ladder that is read from a text, whatever the text is, has a rung, all its rungs have
    -- positive finite prices and fractions, and its total is the sum of the fractions.
    pub parse_tp_ladder-IsUsable :
        (raw : Option String) (l : TpLadder F)
        → parse_tp_ladder json_parse raw ≡ some l
        → IsUsable l
    unfolding parse_tp_ladder
    parse_tp_ladder-IsUsable none l h = cc
    parse_tp_ladder-IsUsable (some raw) l h = elim (Bool-cases (str_eq raw "")) [
      | inl e ↦ let absurd : none ≡ some l = rw (parse_tp_ladder, e) at h in cc
      | inr e ↦ ladder_of_json-IsUsable (json_parse raw) l (rw (parse_tp_ladder, e) at h)
    ]

    -- A usable ladder is read back as it was stored, provided that its JSON text is read back and that
    -- the empty text is no JSON.
    pub parse_tp_ladder-serialize_tp_ladder :
        (json_stringify : Json F → String) (l : TpLadder F)
        → json_parse "" ≡ none
        → json_parse (json_stringify (ladder_json l)) ≡ some (ladder_json l)
        → IsUsable l
        → parse_tp_ladder json_parse (serialize_tp_ladder json_stringify (some l)) ≡ some l
    unfolding parse_tp_ladder serialize_tp_ladder lookup_field
    parse_tp_ladder-serialize_tp_ladder json_stringify l empty same u =
        elim (Bool-cases (str_eq (json_stringify (ladder_json l)) "")) [
          | inl e ↦ let blank = (str_eq_iff _ _).0 e in let t = rw (blank, empty) at same in cc
          | inr e ↦ rw (u.has_rung, parse_tp_ladder, e, same) (ladder_of_json-ladder_json l u)
        ]
