-- ===== src/Settlement/Baseline.antt =====
-- The stored equity baseline of a day: `loadDailyEquityBaseline` and `persistDailyEquityBaseline` of
-- engine/autonomous-runtime.ts, on the metadata table as a map. `encodeURIComponent`, `String` and
-- `Number` are parameters; a read that fails counts as a missing key.
use Prim.Native.String.{◌++◌ as str_append}
use text.Mathlib.TextLemmas.{append_cancel_left}
use beam_clmm.Prelude.{
  Bool, String, if◌then◌else◌, map_get, map_set, str_eq, Option, StringMap, ◌≡◌, ◌or◌, false, some,
  ◌&&◌, Bool-cases, none, inl, true, str_eq_iff, inr, map_get-set, ◌∙◌, refl,
}
use beam_clmm.Number.{Number, int, is_finite, ◌≥?◌}

pub record DailyEquityBaselineScope : Type 0 where
  pub wallet_address : String
  pub agent_instance_id : String

pub record DailyEquityBaseline (F : Type 0) : Type 0 where
  pub day : String
  pub equity_usd : F

module _ (encode : String → String) where
  abbrev key_prefix : DailyEquityBaselineScope → String
  key_prefix scope =
      str_append "dailyBaseline:"
        (str_append (encode scope.wallet_address) (str_append ":" (encode scope.agent_instance_id)))

  abbrev pub day_key : DailyEquityBaselineScope → String
  day_key scope = str_append (key_prefix scope) ":day"

  abbrev pub equity_key : DailyEquityBaselineScope → String
  equity_key scope = str_append (key_prefix scope) ":equityUsd"

  keys_differ :
      (scope : DailyEquityBaselineScope) → str_eq (equity_key scope) (day_key scope) ≡ false
  keys_differ scope = elim (Bool-cases (str_eq (equity_key scope) (day_key scope))) [
    | inl e ↦
        let same =
          append_cancel_left (key_prefix scope) ":equityUsd" ":day" ((str_eq_iff _ _).0 e) in
        cc
    | inr e ↦ e
  ]

map_get-set_same {ℓ} :
    {V : Type ℓ} (k : String) (v : V) (m : StringMap V) → map_get k (map_set k v m) ≡ some v
map_get-set_same k v m = map_get-set k k v m ∙ rw ((str_eq_iff k k).1 refl) refl

module _ {F : Type 0} ⦃n : Number F⦄ (encode : String → String) (number_text : F → String)
    (parse_number : String → F) where
  abbrev parsed_equity : Option String → F
  parsed_equity none = int 0
  parsed_equity (some text) = parse_number text

  abbrev usable_equity : F → F
  usable_equity equity = if is_finite equity && (equity ≥? int 0) then equity else int 0

  unfoldable pub load_daily_equity_baseline :
      StringMap String → DailyEquityBaselineScope → DailyEquityBaseline F
  unfolding map_get
  load_daily_equity_baseline metadata scope = record {
    day = map_get (day_key encode scope) metadata or "";
    equity_usd = usable_equity (parsed_equity (map_get (equity_key encode scope) metadata));
  }

  -- The two keys are written together; a write that fails leaves the table as it was.
  unfoldable pub persist_daily_equity_baseline :
      Bool → StringMap String → DailyEquityBaselineScope → DailyEquityBaseline F → StringMap String
  unfolding map_set
  persist_daily_equity_baseline written metadata scope baseline =
      if written
      then map_set (equity_key encode scope) (number_text baseline.equity_usd)
          (map_set (day_key encode scope) baseline.day metadata)
      else metadata

  -- A baseline that was written is loaded again as it was, whatever the table held before, provided
  -- that its equity is finite and not negative and that its text is read back.
  pub load_daily_equity_baseline-persist_daily_equity_baseline :
      (metadata : StringMap String) (scope : DailyEquityBaselineScope)
      (baseline : DailyEquityBaseline F)
      → (is_finite baseline.equity_usd && (baseline.equity_usd ≥? int 0)) ≡ true
      → parse_number (number_text baseline.equity_usd) ≡ baseline.equity_usd
      → load_daily_equity_baseline
          (persist_daily_equity_baseline true metadata scope baseline)
          scope
        ≡ baseline
  unfolding load_daily_equity_baseline persist_daily_equity_baseline
  load_daily_equity_baseline-persist_daily_equity_baseline metadata scope baseline usable same =
      let stored = map_set (day_key encode scope) baseline.day metadata in
      let text = number_text baseline.equity_usd in
      let day : map_get (day_key encode scope) (map_set (equity_key encode scope) text stored)
          ≡ some baseline.day =
        map_get-set (equity_key encode scope) (day_key encode scope) text stored
        ∙ (rw (keys_differ encode scope)
            (map_get-set_same (day_key encode scope) baseline.day metadata)) in
      let equity : map_get (equity_key encode scope) (map_set (equity_key encode scope) text stored)
          ≡ some text =
        map_get-set_same (equity_key encode scope) text stored in
      rw (load_daily_equity_baseline, day, equity, same, usable) refl
