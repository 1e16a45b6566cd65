-- ===== src/Tests/Reconciling.antt =====
-- The reconciliation of the sample lines.
use mathlib.Core.List.{Memᴰ}
use niyam_ai.Base.{
  none, some, ℕ, ◌+◌, ◌≤◌, ◌≡◌, refl, Bool, true, false, codes, ◌⊎◌, List, [], ◌∷◌, map, arith, All,
  count, IsUnique, IsSortedBy, leb, total, length, dist, days_apart, ==_iff, ◌==◌, if◌then◌else◌,
}
use niyam_ai.Recon.Lines.{
  matched, probable, MatchPair, RegisterLine, B2BLine, NearMiss, Residual, supplier_default,
  missing_entry,
}
use niyam_ai.Recon.Score.{
  score_pair, similarity, tolerance_paise, date_score, amount_score, weighted_score,
}
use niyam_ai.Recon.Score.Gates.{score_pair_gates}
use niyam_ai.Recon.Passes.{
  reconcile, pass_exact, pass_fuzzy, pass_residuals, register_key, b2b_key, distinct_keys, cross,
  cross_row, assign, assign_one, exact_pair, fuzzy_pair, exact_rank, fuzzy_rank, group_candidates,
  exact_groups, default_residual, missing_residual, near_rank, near_miss, find_near_misses,
}
use niyam_ai.Recon.Passes.Greedy.{reg_ids, b2b_ids}
use niyam_ai.Recon.Passes.Partition.{present, register_ids, entry_ids, reconcile_partitions}
use niyam_ai.Recon.Passes.Justified.{IsJustified, reconcile-IsJustified}
use niyam_ai.Recon.Passes.Complete.{reconcile_complete}
use niyam_ai.Recon.Summary.{summary}
use niyam_ai.Recon.Summary.Totals.{IsPairSummary}
use niyam_ai.Recon.Summary.Conserved.{summary_adds_up}
use niyam_ai.Tests.Sample.{fixed, ratio, cfg, register, b2b, line, entry, day, acme}

program : Unit {0}
unfolding reconcile pass_exact pass_fuzzy pass_residuals distinct_keys cross cross_row assign
    assign_one exact_pair fuzzy_pair exact_rank fuzzy_rank group_candidates exact_groups
    default_residual missing_residual near_rank near_miss find_near_misses score_pair similarity
    tolerance_paise date_score amount_score weighted_score days_apart niyam_ai.Base.ordinal
program = tt

-- The equal amounts are paired, not the first come.
pairs-sample :
    map {B = ℕ × ℕ}
      (λ (p : MatchPair ℕ). (p.invoice_id, p.b2b_entry_id))
      (reconcile fixed ratio register b2b cfg).pairs
    ≡ (1, 12) ∷ (2, 11) ∷ (3, 13) ∷ []
unfolding program niyam_ai.Base.ordinal
pairs-sample = refl

register-IsUnique : IsUnique (register_ids register)
register-IsUnique a = ground arith

b2b-IsUnique : IsUnique (entry_ids b2b)
b2b-IsUnique a = ground arith

reconcile_partitions_example :
    let result = reconcile fixed ratio register b2b cfg in
    (count 2 (reg_ids result.pairs) + count 2 (present (map (λ x. x.invoice_id) result.residuals))
      ≡ count 2 (register_ids register))
    × (count 2 (b2b_ids result.pairs)
          + count 2 (present (map (λ x. x.b2b_entry_id) result.residuals))
        ≡ count 2 (entry_ids b2b))
reconcile_partitions_example =
    reconcile_partitions fixed ratio register b2b cfg register-IsUnique b2b-IsUnique 2

reconcile-IsJustified_example :
    All (IsJustified fixed ratio cfg register b2b) (reconcile fixed ratio register b2b cfg).pairs
reconcile-IsJustified_example = reconcile-IsJustified fixed ratio cfg register b2b

-- The fourth line and the fourth entry are left over.
abbrev near_miss_of_entry : NearMiss ℕ
near_miss_of_entry = record {
  b2b_entry_id = 14;
  supplier_gstin = acme;
  invoice_number = codes "ZZ";
  invoice_date = day 28;
  total_paise = 70;
  similarity = 6000;
}

abbrev open_line : Residual ℕ
open_line = record {
  bucket = supplier_default;
  invoice_id = some 4;
  b2b_entry_id = none;
  total_paise = 900000;
  supplier_gstin = acme;
  near_misses = near_miss_of_entry ∷ [];
}

open_line-listed : Memᴰ open_line (reconcile fixed ratio register b2b cfg).residuals
unfolding program niyam_ai.Base.ordinal
open_line-listed = Memᴰ.head refl

abbrev open_entry : Residual ℕ
open_entry = record {
  bucket = missing_entry;
  invoice_id = none;
  b2b_entry_id = some 14;
  total_paise = 70;
  supplier_gstin = acme;
  near_misses = [];
}

open_entry-listed : Memᴰ open_entry (reconcile fixed ratio register b2b cfg).residuals
unfolding program niyam_ai.Base.ordinal
open_entry-listed = Memᴰ.tail (Memᴰ.head refl)

abbrev fourth_line : RegisterLine
fourth_line = line 4 (codes "INV9") (day 9) 900000

abbrev fourth_entry : B2BLine
fourth_entry = entry 14 (codes "ZZ") (day 28) 70

reconcile_complete_example :
    ¬ ((register_key fourth_line ≡ b2b_key fourth_entry) × (dist 900000 70 ≤ 100))
    × (leb 7000 (score_pair fixed ratio fourth_line fourth_entry cfg) ≡ false)
reconcile_complete_example =
    reconcile_complete fixed ratio cfg register b2b fourth_line fourth_entry open_line open_entry
      (Memᴰ.tail (Memᴰ.tail (Memᴰ.tail (Memᴰ.head refl))))
      (Memᴰ.tail (Memᴰ.tail (Memᴰ.tail (Memᴰ.head refl)))) open_line-listed open_entry-listed refl
      refl

reaches-threshold :
    leb 7000 (
      score_pair fixed ratio
        (line 3 (codes "INV7") (day 9) 500000)
        (entry 13 (codes "INV77") (day 9) 500000)
        cfg)
    ≡ true
unfolding program niyam_ai.Base.ordinal
reaches-threshold = refl

score_pair_gates_example :
    (acme ≡ acme)
    × (days_apart (day 9) (day 9) ≤ 5)
    × ((dist 500000 500000 ≤ tolerance_paise fixed ratio cfg (line 3 (codes "INV7") (day 9) 500000))
        ⊎ ◌≡◌ {A = ℕ} 500000 0 × ◌≡◌ {A = ℕ} 500000 1)
score_pair_gates_example =
    score_pair_gates fixed ratio cfg (line 3 (codes "INV7") (day 9) 500000)
      (entry 13 (codes "INV77") (day 9) 500000) 7000 refl reaches-threshold

summary_adds_up_example :
    let result = reconcile fixed ratio register b2b cfg in
    let s = summary result in
    (s.matched.count + s.probable.count + s.supplier_default.count ≡ 4)
    × (s.matched.paise + s.probable.paise + s.supplier_default.paise
        ≡ total (λ r. r.total_paise) register)
    × (s.matched.count + s.probable.count + s.missing_entry.count ≡ 4)
    × (total (λ p. p.b2b_total_paise) result.pairs + s.missing_entry.paise
        ≡ total (λ b. b.total_paise) b2b)
    × IsPairSummary matched result.pairs s.matched
    × IsPairSummary probable result.pairs s.probable
summary_adds_up_example =
    summary_adds_up fixed ratio cfg register b2b register-IsUnique b2b-IsUnique
