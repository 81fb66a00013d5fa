-- ===== src/Settlement/Orphans.antt =====
-- Which tokens `sweepOrphanSettlements` of engine/autonomous-runtime.ts queues.
use beam_clmm.Prelude.{
  Bool, true, false, first, later, not, List, String, Option, Member, str_eq, ◌or_else◌, is_none,
  ◌||◌, ◌≡◌, is_empty, some, ◌∷◌, ◌&&◌, if◌then◌else◌, ◌≢◌, none, inl, &&_true, filter, refl,
  str_eq_iff, arith, ◌⊎◌, [], inr, ◌++◌, map, Member-any, Member-filter, ap,
}
use beam_clmm.Prelude.Int.{pos, leb_ℤ}
use beam_clmm.Number.{Number, int, ◌≤?◌, ◌<?◌}
use beam_clmm.Settlement.{SettlementJob, JobStatus}
use beam_clmm.Settlement.Step.{native_mint, starts_with, atomic_usd}
use beam_clmm.Settlement.Sweep.{
  SweepInput, Holding, terminal_of, is_orphan, queue_orphans, sweep_orphan_settlements, queue,
  is_revivable, is_backed, is_candidate, OpenPosition, backed_mints, position_mints, pool_mints,
  price_usd,
}
use beam_clmm.Settlement.Pause.{is_open_job}
use beam_clmm.Number.Order.{◌≺◌}

-- A row of a list that starts with one row or does not.
head_or_rest {ℓ} :
    {A : Type ℓ} (b : Bool) (x : A) (rest : List A) (row : A)
    → Member row (if b then x ∷ rest else rest)
    → ((b ≡ true) × (x ≡ row)) ⊎ Member row rest
head_or_rest true x rest row (first e) = inl (refl, e)
head_or_rest true x rest row (later m) = inr m
head_or_rest false x rest row m = inr m

or_else-some {ℓ} :
    {A : Type ℓ} (o : Option A) (b : Bool) (x y : A)
    → o or_else (if b then some x else none) ≡ some y
    → (o ≡ some y) ⊎ ((b ≡ true) × (x ≡ y))
or_else-some none true x y e = inr (refl, cc)
or_else-some none false x y e = cc
or_else-some (some z) b x y e = inl e

two_guards {ℓ} :
    {A : Type ℓ} (b c : Bool) (xs : List A) (x : A)
    → Member x (if b then [] else if c then [] else xs)
    → Member x xs
two_guards true c xs x m = elim m [ ]
two_guards false true xs x m = elim m [ ]
two_guards false false xs x m = m

str_eq-false : (a b : String) → str_eq a b ≡ false → a ≢ b
str_eq-false a b h e = let t = (str_eq_iff a b).1 e in cc

is_none-none {ℓ} : {A : Type ℓ} {o : Option A} → is_none o ≡ true → o ≡ none
is_none-none {o = none} h = refl
is_none-none {o = some x} h = cc

guard_false :
    (a b c d e : Bool)
    → not (a || (b || c)) && (not d && not e) ≡ true
    → (a ≡ false) × (b ≡ false) × (c ≡ false) × (d ≡ false) × (e ≡ false)
guard_false a b c d e h = ground arith

dust_guard : (a b c : Bool) → (a && (b || c)) ≡ false → a ≡ true → (b ≡ false) × (c ≡ false)
dust_guard a b c h k = (ground arith, ground arith)

Member-left {ℓ} : {A : Type ℓ} {a : A} (xs ys : List A) → Member a xs → Member a (xs ++ ys)
Member-left [] ys m = elim m [ ]
Member-left (x ∷ xs) ys (first e) = first e
Member-left (x ∷ xs) ys (later m) = later (Member-left xs ys m)

Member-right {ℓ} : {A : Type ℓ} {a : A} (xs ys : List A) → Member a ys → Member a (xs ++ ys)
Member-right [] ys m = m
Member-right (x ∷ xs) ys m = later (Member-right xs ys m)

Member-map {ℓ κ} :
    {A : Type ℓ} {B : Type κ} (f : A → B) {a : A} (xs : List A)
    → Member a xs
    → Member (f a) (map f xs)
Member-map f [] m = elim m [ ]
Member-map f (x ∷ xs) (first e) = first (ap f e)
Member-map f (x ∷ xs) (later m) = later (Member-map f xs m)

-- The legs of the pool of a live position are among the mints of the positions.
position_mints-Member :
    (tokens : String → Option (String × String)) (ps : List OpenPosition) (p : OpenPosition)
    (x y : String)
    → Member p ps
    → starts_with "paper-" p.position_id ≡ false
    → tokens p.pool_address ≡ some (x, y)
    → Member x (position_mints tokens ps) × Member y (position_mints tokens ps)
unfolding position_mints
position_mints-Member tokens [] p x y m live known = elim m [ ]
position_mints-Member tokens (q ∷ ps) p x y (first e) live known =
    let here : (if starts_with "paper-" q.position_id
          then []
          else pool_mints (tokens q.pool_address))
        ≡ (x ∷ y ∷ []) =
      rw e (rw (live, known) refl) in
    rw here (first refl, later (first refl))
position_mints-Member tokens (q ∷ ps) p x y (later m) live known =
    let (a, b) = position_mints-Member tokens ps p x y m live known in
    (Member-right _ _ a, Member-right _ _ b)

module _ {F : Type 0} (i : SweepInput F) (mint : String) (unbacked : is_backed i mint ≡ false) where
  not_backed : (other : String) → Member other (backed_mints i) → mint ≢ other
  not_backed other m e =
      let there = Member-any (str_eq mint) (backed_mints i) other m ((str_eq_iff mint other).1 e) in
      cc

  no_open_job-backed :
      (j : SettlementJob F) → Member j i.existing_jobs → is_open_job j ≡ true → mint ≢ j.token_mint
  no_open_job-backed j m e = not_backed j.token_mint (
      Member-left _ _
        (Member-map (λ job. job.token_mint) _ (Member-filter is_open_job i.existing_jobs j m e)))

  no_live_leg-backed :
      (p : OpenPosition)
      → Member p i.open_positions
      → starts_with "paper-" p.position_id ≡ false
      → (x y : String) → i.pool_tokens p.pool_address ≡ some (x, y)
      → (mint ≢ x) × (mint ≢ y)
  no_live_leg-backed p m live x y known =
      let (a, b) = position_mints-Member i.pool_tokens i.open_positions p x y m live known in
      (not_backed x (Member-right _ _ a), not_backed y (Member-right _ _ b))

module _ {F : Type 0} ⦃n : Number F⦄ (to_lower_case : String → String) (stablecoin_mint : String)
    (fresh_id : String → String) where
  -- Why a row is queued, and what it starts from.
  pub record IsOrphan (i : SweepInput F) (job : SettlementJob F) (h : Holding) : Type 0 where
    pub same_mint : job.token_mint ≡ h.mint
    pub whole_holding : job.amount_atomic ≡ h.amount_atomic
    pub not_native : h.mint ≢ native_mint
    pub not_stable : h.mint ≢ stablecoin_mint
    pub positive : leb_ℤ h.amount_atomic (pos 0) ≡ false
    pub no_open_job :
        (j : SettlementJob F)
        → Member j i.existing_jobs
        → is_open_job j ≡ true
        → h.mint ≢ j.token_mint
    pub no_live_leg :
        (p : OpenPosition)
        → Member p i.open_positions
        → starts_with "paper-" p.position_id ≡ false
        → (x y : String) → i.pool_tokens p.pool_address ≡ some (x, y)
        → (h.mint ≢ x) × (h.mint ≢ y)
    pub not_dust :
        let price = price_usd to_lower_case stablecoin_mint fresh_id i h.mint in
        int 0 ≺ i.settlement_dust_usd
        → ((price ≤? int 0) ≡ false)
          × ((atomic_usd h.amount_atomic h.decimals price <? i.settlement_dust_usd) ≡ false)
    pub unsent : job.tx_signature ≡ none
    pub waiting : job.status ≡ JobStatus.pending
    pub due_now : job.next_retry_at ≡ some i.now

  terminal_of-revivable :
      (mint : String) (jobs : List (SettlementJob F)) (job : SettlementJob F)
      → terminal_of mint jobs ≡ some job
      → is_revivable mint job ≡ true
  unfolding terminal_of
  terminal_of-revivable mint [] job h = cc
  terminal_of-revivable mint (j ∷ js) job h =
      elim (or_else-some (terminal_of mint js) (is_revivable mint j) j job h) [
        | inl e ↦ terminal_of-revivable mint js job e
        | inr (b, e) ↦ rw (← e) b
      ]

  queue-IsOrphan :
      (i : SweepInput F) (h : Holding)
      → is_orphan to_lower_case stablecoin_mint fresh_id i h ≡ true
      → (t : Option (SettlementJob F)) → terminal_of h.mint i.existing_jobs ≡ t
      → IsOrphan i (queue to_lower_case stablecoin_mint fresh_id t i h) h
  queue-IsOrphan i h o none e =
      let (a, b, c, d, dust) = guard_false _ _ _ _ _ o in
      record {
        same_mint = refl;
        whole_holding = refl;
        not_native = str_eq-false _ _ a;
        not_stable = str_eq-false _ _ b;
        positive = c;
        no_open_job = no_open_job-backed i h.mint d;
        no_live_leg = no_live_leg-backed i h.mint d;
        not_dust = dust_guard _ _ _ dust;
        unsent = refl;
        waiting = refl;
        due_now = refl;
      }
  queue-IsOrphan i h o (some t) e =
      let (a, b, c, d, dust) = guard_false _ _ _ _ _ o in
      let (over, rest) = &&_true _ _ (terminal_of-revivable h.mint i.existing_jobs t e) in
      let (unconfirmed, rest2) = &&_true _ _ rest in
      let (never, same) = &&_true _ _ rest2 in
      record {
        same_mint = (str_eq_iff _ _).0 same;
        whole_holding = refl;
        not_native = str_eq-false _ _ a;
        not_stable = str_eq-false _ _ b;
        positive = c;
        no_open_job = no_open_job-backed i h.mint d;
        no_live_leg = no_live_leg-backed i h.mint d;
        not_dust = dust_guard _ _ _ dust;
        unsent = is_none-none never;
        waiting = refl;
        due_now = refl;
      }

  queue_orphans-IsOrphan :
      (i : SweepInput F) (hs : List Holding) (job : SettlementJob F)
      → Member job (queue_orphans to_lower_case stablecoin_mint fresh_id i hs)
      → (h : Holding) × Member h hs × IsOrphan i job h
  unfolding queue_orphans
  queue_orphans-IsOrphan i [] job m = elim m [ ]
  queue_orphans-IsOrphan i (h ∷ hs) job m =
      elim (head_or_rest (is_orphan to_lower_case stablecoin_mint fresh_id i h)
        (queue to_lower_case stablecoin_mint fresh_id (terminal_of h.mint i.existing_jobs) i h)
        (queue_orphans to_lower_case stablecoin_mint fresh_id i hs) job m) [
          | inl (o, e) ↦ (h, first refl, rw (← e) (queue-IsOrphan i h o _ refl))
          | inr k ↦ let (g, inside, q) = queue_orphans-IsOrphan i hs job k in (g, later inside, q)
        ]

  -- Every row that the sweep queues is for the whole of a holding whose mint is spelled neither as the
  -- native token nor as the stablecoin (letter by letter: another case does not count), that no open job
  -- is for and no known pool of a live position has as a leg, of the jobs and positions that could be
  -- read, and that, where a dust limit is set, has a price and is worth the limit; it is due at once, and
  -- no transaction of it is recorded.
  pub sweep_orphan_settlements-IsOrphan :
      (i : SweepInput F) (job : SettlementJob F)
      → Member job (sweep_orphan_settlements to_lower_case stablecoin_mint fresh_id i)
      → (h : Holding) × Member h i.holdings × IsOrphan i job h
  unfolding sweep_orphan_settlements
  sweep_orphan_settlements-IsOrphan i job m = queue_orphans-IsOrphan i i.holdings job (
      two_guards (not i.has_wallet)
        (is_empty (filter (is_candidate to_lower_case stablecoin_mint) i.holdings)) _ _ m)
