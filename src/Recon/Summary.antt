-- ===== src/Recon/Summary.antt =====
-- The summary of a reconciliation (backend/app/engines/reconciliation/types.py,
-- `ReconResult.summary`). The descriptions and the disclaimer are constant texts, and left out.
pub mod Totals
pub mod Sums
pub mod Conserved
use niyam_ai.Base.{
  ℕ, zero, suc, ◌+◌, Bool, true, false, not, Option, none, some, List, [], ◌∷◌, map, Text, text_eq,
  total, keep, length, take, sort_by, leb, if◌then◌else◌,
}
use niyam_ai.Recon.Lines.{
  PairBucket, matched, probable, MatchPair, ResidualBucket, supplier_default, missing_entry,
  Residual, ReconResult,
}

pub record SupplierTotal : Type 0 where
  pub supplier_gstin : Text
  pub count : ℕ
  pub paise : ℕ

pub record PairSummary : Type 0 where
  pub count : ℕ
  pub paise : ℕ
  pub paise_claimable : ℕ
  pub paise_not_available : ℕ

pub record DefaultSummary : Type 0 where
  pub count : ℕ
  pub paise : ℕ
  pub top_suppliers : List SupplierTotal
  pub with_near_misses : ℕ

pub record CountPaise : Type 0 where
  pub count : ℕ
  pub paise : ℕ

pub record Summary : Type 0 where
  pub matched : PairSummary
  pub probable : PairSummary
  pub supplier_default : DefaultSummary
  pub missing_entry : CountPaise
  pub cdn : CountPaise

-- `setdefault(gstin, zeros)`, then both counters; the dict keeps the order of insertion.
unfoldable pub add_to : Text → ℕ → List SupplierTotal → List SupplierTotal
add_to gstin paise [] = (record { supplier_gstin = gstin; count = 1; paise = paise }) ∷ []
add_to gstin paise (s ∷ ss) =
    let rest = add_to gstin paise ss in
    if text_eq s.supplier_gstin gstin
    then (record s { count = s.count + 1; paise = s.paise + paise }) ∷ ss
    else s ∷ rest

module _ {F : Type 0} where
  unfoldable pub supplier_totals : List (Residual F) → List SupplierTotal → List SupplierTotal
  supplier_totals [] acc = acc
  supplier_totals (r ∷ rs) acc = supplier_totals rs (add_to r.supplier_gstin r.total_paise acc)

  abbrev pub is_matched : MatchPair F → Bool
  is_matched p = elim p.bucket [ matched ↦ true | probable ↦ false ]

  abbrev pub is_probable : MatchPair F → Bool
  is_probable p = elim p.bucket [ matched ↦ false | probable ↦ true ]

  abbrev pub is_default : Residual F → Bool
  is_default r = elim r.bucket [ supplier_default ↦ true | missing_entry ↦ false ]

  abbrev pub is_missing : Residual F → Bool
  is_missing r = elim r.bucket [ supplier_default ↦ false | missing_entry ↦ true ]

  abbrev pub has_near_misses : Residual F → Bool
  has_near_misses r = elim r.near_misses [ [] ↦ false | m ∷ ms ↦ true ]

  unfoldable pub pair_summary : List (MatchPair F) → PairSummary
  pair_summary pairs = record {
    count = length pairs;
    paise = total (λ p. p.invoice_total_paise) pairs;
    paise_claimable = total (λ p. p.invoice_total_paise) (keep (λ p. p.itc_available) pairs);
    paise_not_available =
        total (λ p. p.invoice_total_paise) (keep (λ p. not p.itc_available) pairs);
  }

  -- `sorted(…, key=paise, reverse=True)[:10]`: a stable sort by falling amounts.
  unfoldable pub top_suppliers : List (Residual F) → List SupplierTotal
  top_suppliers sup_def =
      take 10 (sort_by (λ s t. leb t.paise s.paise) (supplier_totals sup_def []))

  unfoldable pub summary : ReconResult F → Summary
  summary result =
      let sup_def = keep is_default result.residuals in
      let missing = keep is_missing result.residuals in
      record {
        matched = pair_summary (keep is_matched result.pairs);
        probable = pair_summary (keep is_probable result.pairs);
        supplier_default = record {
          count = length sup_def;
          paise = total (λ r. r.total_paise) sup_def;
          top_suppliers = top_suppliers sup_def;
          with_near_misses = length (keep has_near_misses sup_def);
        };
        missing_entry = record {
          count = length missing;
          paise = total (λ r. r.total_paise) missing;
        };
        cdn = record { count = result.cdn_count; paise = result.cdn_paise };
      }
