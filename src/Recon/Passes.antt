-- ===== src/Recon/Passes.antt =====
-- The three passes (backend/app/engines/reconciliation/passes.py). A set of identifiers is the
-- list of those added to it. Both greedy passes run the same loop over their sorted candidates;
-- they differ in the pair that they append.
pub mod Greedy
pub mod Cross
pub mod Partition
pub mod Exact
pub mod Justified
pub mod Complete
use niyam_ai.Base.{
  ℕ, zero, suc, ◌+◌, Bool, true, false, not, ◌&&◌, ◌||◌, Option, none, some, List, [], ◌∷◌, ◌++◌,
  map, Text, text_eq, text_leb, Date, date_eq, date_leb, dist, contains, keep, any, sort_by, take,
  ◌==◌, ltb, leb, if◌then◌else◌, Floats,
}
use niyam_ai.Recon.Lines.{
  ReconConfig, RegisterLine, B2BLine, PairBucket, matched, probable, MatchPair, NearMiss,
  ResidualBucket, supplier_default, missing_entry, Residual, ReconResult,
}
use niyam_ai.Recon.Score.{score_pair, similarity}

-- A candidate pair with what it is ranked by.
abbrev pub Candidate {ℓ} : Type ℓ → Type ℓ
Candidate A = A × RegisterLine × B2BLine

-- The key of an exact match: supplier, normalised number, ISO date.
abbrev pub Key : Type 0
Key = Text × Text × Date

abbrev pub register_key : RegisterLine → Key
register_key r = (r.supplier_gstin, r.normalized_number, r.invoice_date)

abbrev pub b2b_key : B2BLine → Key
b2b_key b = (b.supplier_gstin, b.normalized_number, b.invoice_date)

abbrev pub key_eq : Key → Key → Bool
key_eq a b = text_eq a.0 b.0 && text_eq a.1 b.1 && date_eq a.2 b.2

abbrev pub key_leb : Key → Key → Bool
key_leb a b =
    if text_eq a.0 b.0
    then (if text_eq a.1 b.1 then date_leb a.2 b.2 else text_leb a.1 b.1)
    else text_leb a.0 b.0

-- The keys of a dict that was filled in this order, each once.
unfoldable pub distinct_keys : List Key → List Key
distinct_keys [] = []
distinct_keys (k ∷ ks) = k ∷ keep (λ j. not (key_eq k j)) (distinct_keys ks)

-- `for r in regs: for b in candidates:` with a test, and what the pair is ranked by.
module _ {ℓ} {A : Type ℓ} (rank : RegisterLine → B2BLine → Option A) where
  unfoldable pub cross_row : RegisterLine → List B2BLine → List (Candidate A)
  cross_row r [] = []
  cross_row r (b ∷ bs) =
      let rest = cross_row r bs in elim (rank r b) [ none ↦ rest | some a ↦ (a, r, b) ∷ rest ]

  unfoldable pub cross : List RegisterLine → List B2BLine → List (Candidate A)
  cross [] bs = []
  cross (r ∷ rs) bs = cross_row r bs ++ cross rs bs

-- Ties are broken by the texts of the two identifiers.
abbrev pub ids_leb {ℓ} : {A : Type ℓ} → Candidate A → Candidate A → Bool
ids_leb (a, r, b) (a', r', b') =
    if r.invoice_id == r'.invoice_id
    then leb b.b2b_entry_id b'.b2b_entry_id
    else leb r.invoice_id r'.invoice_id

-- The key `(diff, str(invoice_id), str(b2b_entry_id))`.
abbrev pub exact_leb : Candidate ℕ → Candidate ℕ → Bool
exact_leb s t = if s.0 == t.0 then ids_leb s t else leb s.0 t.0

module _ (fl : Floats) where
  open fl use {F, of_nat, leb_F, round_to}

  -- The key `(-score, str(invoice_id), str(b2b_entry_id))`.
  abbrev pub fuzzy_leb : Candidate F → Candidate F → Bool
  fuzzy_leb s t = if leb_F s.0 t.0 && leb_F t.0 s.0 then ids_leb s t else leb_F t.0 s.0

  -- The state of a pass: the pairs of the result and the two sets.
  pub record Progress : Type 0 where
    pub pairs : List (MatchPair F)
    pub paired_reg : List ℕ
    pub paired_b2b : List ℕ

  abbrev pub is_taken : Progress → RegisterLine → B2BLine → Bool
  is_taken s r b = contains s.paired_reg r.invoice_id || contains s.paired_b2b b.b2b_entry_id

  -- The body of the `for` loop of a greedy pass.
  module _ {ℓ} {A : Type ℓ} (pair : A → RegisterLine → B2BLine → MatchPair F) where
    unfoldable pub assign_one : Candidate A → Progress → Progress
    assign_one (a, r, b) s = if is_taken s r b then s else record {
      pairs = s.pairs ++ pair a r b ∷ [];
      paired_reg = r.invoice_id ∷ s.paired_reg;
      paired_b2b = b.b2b_entry_id ∷ s.paired_b2b;
    }

    unfoldable pub assign : List (Candidate A) → Progress → Progress
    assign [] s = s
    assign (t ∷ ts) s = assign ts (assign_one t s)

  unfoldable pub exact_pair : ℕ → RegisterLine → B2BLine → MatchPair F
  exact_pair diff r c = record {
    invoice_id = r.invoice_id;
    b2b_entry_id = c.b2b_entry_id;
    bucket = matched;
    confidence = of_nat 1;
    invoice_total_paise = r.total_paise;
    b2b_total_paise = c.total_paise;
    supplier_gstin = r.supplier_gstin;
    itc_available = c.itc_available;
  }

  unfoldable pub fuzzy_pair : F → RegisterLine → B2BLine → MatchPair F
  fuzzy_pair score r b = record {
    invoice_id = r.invoice_id;
    b2b_entry_id = b.b2b_entry_id;
    bucket = probable;
    confidence = round_to 4 score;
    invoice_total_paise = r.total_paise;
    b2b_total_paise = b.total_paise;
    supplier_gstin = r.supplier_gstin;
    itc_available = b.itc_available;
  }

  unfoldable pub exact_rank : ReconConfig F → RegisterLine → B2BLine → Option ℕ
  exact_rank cfg r c =
      let diff = dist r.total_paise c.total_paise in
      if leb diff cfg.exact_amount_tolerance_paise then some diff else none

  -- The candidates of one key group, in the order in which they are tried.
  unfoldable pub group_candidates :
      ReconConfig F → List RegisterLine → List B2BLine → Key → List (Candidate ℕ)
  group_candidates cfg register b2b key = sort_by exact_leb (
      cross (exact_rank cfg) (keep (λ r. key_eq (register_key r) key) register)
        (keep (λ b. key_eq (b2b_key b) key) b2b))

  unfoldable pub exact_groups :
      ReconConfig F → List RegisterLine → List B2BLine → List Key → Progress → Progress
  exact_groups cfg register b2b [] s = s
  exact_groups cfg register b2b (key ∷ keys) s =
      exact_groups cfg register b2b keys
        (assign exact_pair (group_candidates cfg register b2b key) s)

  unfoldable pub pass_exact :
      ReconConfig F → List RegisterLine → List B2BLine → List (MatchPair F) → Progress
  pass_exact cfg register b2b pairs =
      exact_groups cfg register b2b (sort_by key_leb (distinct_keys (map register_key register)))
        (record { pairs = pairs; paired_reg = []; paired_b2b = [] })

  abbrev pub unpaired_reg : Progress → List RegisterLine → List RegisterLine
  unpaired_reg s register = keep (λ r. not (contains s.paired_reg r.invoice_id)) register

  abbrev pub unpaired_b2b : Progress → List B2BLine → List B2BLine
  unpaired_b2b s b2b = keep (λ b. not (contains s.paired_b2b b.b2b_entry_id)) b2b

module _ (fl : Floats) (sequence_ratio : Text → Text → fl.F) where
  open fl use {F, of_nat, lit, leb_F, round_to}

  unfoldable pub fuzzy_rank : ReconConfig F → RegisterLine → B2BLine → Option F
  fuzzy_rank cfg r b =
      let s = score_pair fl sequence_ratio r b cfg in
      if leb_F cfg.probable_confidence_threshold s then some s else none

  unfoldable pub pass_fuzzy :
      ReconConfig F → List RegisterLine → List B2BLine → List (MatchPair F) → Progress fl
  pass_fuzzy cfg register b2b pairs =
      assign fl (fuzzy_pair fl) (sort_by (fuzzy_leb fl) (cross (fuzzy_rank cfg) register b2b))
        (record { pairs = pairs; paired_reg = []; paired_b2b = [] })

  -- A near miss of `r`, ranked by its similarity, of at least NEAR_MISS_MIN_SIMILARITY.
  unfoldable pub near_rank : RegisterLine → B2BLine → Option F
  near_rank r b =
      let sim = similarity fl sequence_ratio r.normalized_number b.normalized_number in
      if not (text_eq b.supplier_gstin r.supplier_gstin)
      then none
      else if leb_F (lit 5 1) sim
      then some sim
      else none

  unfoldable pub near_miss : Candidate F → NearMiss F
  near_miss (sim, r, b) = record {
    b2b_entry_id = b.b2b_entry_id;
    supplier_gstin = b.supplier_gstin;
    invoice_number = b.invoice_number;
    invoice_date = b.invoice_date;
    total_paise = b.total_paise;
    similarity = round_to 4 sim;
  }

  abbrev pub near_miss_max_per_residual : ℕ
  near_miss_max_per_residual = 3

  unfoldable pub find_near_misses : RegisterLine → List B2BLine → List (NearMiss F)
  find_near_misses r unmatched =
      map near_miss
        (take near_miss_max_per_residual (sort_by (fuzzy_leb fl) (cross_row near_rank r unmatched)))

  unfoldable pub default_residual : List B2BLine → RegisterLine → Residual F
  default_residual remaining_b2b r = record {
    bucket = supplier_default;
    invoice_id = some r.invoice_id;
    b2b_entry_id = none;
    total_paise = r.total_paise;
    supplier_gstin = r.supplier_gstin;
    near_misses = find_near_misses r remaining_b2b;
  }

  unfoldable pub missing_residual : B2BLine → Residual F
  missing_residual b = record {
    bucket = missing_entry;
    invoice_id = none;
    b2b_entry_id = some b.b2b_entry_id;
    total_paise = b.total_paise;
    supplier_gstin = b.supplier_gstin;
    near_misses = [];
  }

  unfoldable pub pass_residuals : List RegisterLine → List B2BLine → List (Residual F)
  pass_residuals remaining_reg remaining_b2b =
      map (default_residual remaining_b2b) remaining_reg ++ map missing_residual remaining_b2b

  unfoldable pub reconcile : List RegisterLine → List B2BLine → ReconConfig F → ReconResult F
  reconcile register b2b cfg =
      let exact = pass_exact fl cfg register b2b [] in
      let register1 = unpaired_reg fl exact register in
      let b2b1 = unpaired_b2b fl exact b2b in
      let fuzzy = pass_fuzzy cfg register1 b2b1 exact.pairs in
      let register2 = unpaired_reg fl fuzzy register1 in
      let b2b2 = unpaired_b2b fl fuzzy b2b1 in
      record {
        pairs = fuzzy.pairs;
        residuals = pass_residuals register2 b2b2;
        cdn_count = 0;
        cdn_paise = 0;
      }
