-- ===== src/Filings/Gstr1/Blocks.antt =====
-- What the blocks of a GSTR-1 hold (backend/app/filings/gstr1_generator.py).
use niyam_ai.Base.{
  ℕ, ◌+◌, ◌≤◌, ◌≡◌, refl, ap, Bool, false, none, some, List, [], ◌∷◌, arith, Text, text_eq,
  text_eq_sound, text_leb_total, text_leb_trans, keep, total, total-append, total-sort_by, sort_by,
  IsSortedBy, sort_by-IsSortedBy, Option-cases, Bool-cases, inl, inr, leb, if◌then◌else◌,
}
use niyam_ai.Ingestion.Invoice.{isoformat}
use niyam_ai.Filings.Gstr1.{
  SaleRow, InvoiceItem, Block, Gstr1, Group, is_reported, add_to_group, group_row, group_by_ctin,
  invoice_item, invoice_items, fmt_invoice_date, place_of_supply, blocks_of, block_leb,
}

-- What a row has in common with its item: total, taxable value and the three heads.
abbrev pub Measure : Type 0
Measure = ℕ → ℕ → ℕ → ℕ → ℕ → ℕ

abbrev pub of_row : Measure → SaleRow → ℕ
of_row f r = f r.total_paise r.taxable_value_paise r.cgst_paise r.sgst_paise r.igst_paise

abbrev pub of_item : Measure → InvoiceItem → ℕ
of_item f i = f i.val i.txval i.camt i.samt i.iamt

abbrev pub is_from : Text → SaleRow → Bool
is_from ctin r = elim r.counterparty_gstin [ none ↦ false | some c ↦ text_eq c ctin ]

-- The sum over the invoices under a counterparty, in the blocks and in the groups.
abbrev pub under : Measure → Text → List Block → ℕ
under f ctin = total (λ b. if text_eq b.ctin ctin then total (of_item f) b.inv else 0)

abbrev in_groups : Measure → Text → List Group → ℕ
in_groups f ctin = total (λ g. if text_eq g.ctin ctin then total (of_row f) g.rows else 0)

module _ (f : Measure) (ctin : Text) where
  add_to_group-in_groups :
      (c : Text) (r : SaleRow) (gs : List Group)
      → in_groups f ctin (add_to_group c r gs)
        ≡ in_groups f ctin gs + (if text_eq c ctin then of_row f r else 0)
  unfolding add_to_group
  add_to_group-in_groups c r [] = ground arith
  add_to_group-in_groups c r (g ∷ gs) = elim (Bool-cases (text_eq g.ctin c)) [
    | inl same ↦ ground (
      arith,
      same,
      ap (λ t. text_eq t ctin) (text_eq_sound g.ctin c same),
      total-append (of_row f) g.rows (r ∷ []),
    )
    | inr other ↦ ground (arith, other, add_to_group-in_groups c r gs)
  ]

  group_by_ctin-in_groups :
      (rs : List SaleRow) (gs : List Group)
      → in_groups f ctin (group_by_ctin rs gs)
        ≡ in_groups f ctin gs + total (of_row f) (keep (is_from ctin) rs)
  unfolding group_by_ctin group_row
  group_by_ctin-in_groups [] gs = ground arith
  group_by_ctin-in_groups (r ∷ rs) gs = elim (Option-cases r.counterparty_gstin) [
    | inl e ↦ ground (arith, e, group_by_ctin-in_groups rs gs)
    | inr (c, e) ↦
        ground (
          arith,
          e,
          group_by_ctin-in_groups rs (add_to_group c r gs),
          add_to_group-in_groups c r gs,
        )
  ]

  invoice_item-measure :
      (c : Text) (r : SaleRow) (item : InvoiceItem)
      → invoice_item c r ≡ some item
      → of_item f item ≡ of_row f r
  unfolding invoice_item
  invoice_item-measure c r item h =
      elim (Option-cases (fmt_invoice_date (isoformat r.invoice_date))) [
        | inl e ↦ ground (arith, e, h)
        | inr (idt, e) ↦ elim (Option-cases (place_of_supply c)) [
          | inl m ↦ ground (arith, e, m, h)
          | inr (pos, m) ↦ ground (arith, e, m, h)
        ]
      ]

  invoice_items-total :
      (c : Text) (rs : List SaleRow) (items : List InvoiceItem)
      → invoice_items c rs ≡ some items
      → total (of_item f) items ≡ total (of_row f) rs
  unfolding invoice_items
  invoice_items-total c [] items h = ground (arith, h)
  invoice_items-total c (r ∷ rs) items h = elim (Option-cases (invoice_item c r)) [
    | inl e ↦ ground (arith, e, h)
    | inr (item, e) ↦ elim (Option-cases (invoice_items c rs)) [
      | inl m ↦ ground (arith, e, m, h)
      | inr (rest, m) ↦
          ground (arith, e, m, h, invoice_items-total c rs rest m, invoice_item-measure c r item e)
    ]
  ]

  blocks_of-under :
      (gs : List Group) (bs : List Block)
      → blocks_of gs ≡ some bs
      → under f ctin bs ≡ in_groups f ctin gs
  unfolding blocks_of
  blocks_of-under [] bs h = ground (arith, h)
  blocks_of-under (g ∷ gs) bs h = elim (Option-cases (invoice_items g.ctin g.rows)) [
    | inl e ↦ ground (arith, e, h)
    | inr (items, e) ↦ elim (Option-cases (blocks_of gs)) [
      | inl m ↦ ground (arith, e, m, h)
      | inr (rest, m) ↦
          ground
            (arith, e, m, h, blocks_of-under gs rest m, invoice_items-total g.ctin g.rows items e)
    ]
  ]

-- One group, and so one block, for a counterparty.
abbrev pub blocks_for : Text → List Block → ℕ
blocks_for ctin = total (λ b. if text_eq b.ctin ctin then 1 else 0)

abbrev groups_for : Text → List Group → ℕ
groups_for ctin = total (λ g. if text_eq g.ctin ctin then 1 else 0)

module _ (ctin : Text) where
  add_to_group-groups_for :
      (c : Text) (r : SaleRow) (gs : List Group)
      → groups_for ctin (add_to_group c r gs) ≡ (
          if text_eq c ctin
          then (if leb 1 (groups_for ctin gs) then groups_for ctin gs else 1)
          else groups_for ctin gs)
  unfolding add_to_group
  add_to_group-groups_for c r [] = ground arith
  add_to_group-groups_for c r (g ∷ gs) = elim (Bool-cases (text_eq g.ctin c)) [
    | inl same ↦ ground (arith, same, ap (λ t. text_eq t ctin) (text_eq_sound g.ctin c same))
    | inr other ↦ elim (Bool-cases (text_eq c ctin)) [
      | inl here ↦ ground (
        arith,
        other,
        here,
        add_to_group-groups_for c r gs,
        ap (λ t. text_eq g.ctin t) (text_eq_sound c ctin here),
      )
      | inr there ↦ ground (arith, other, there, add_to_group-groups_for c r gs)
    ]
  ]

  group_by_ctin-groups_for :
      (rs : List SaleRow) (gs : List Group)
      → groups_for ctin gs ≤ 1
      → groups_for ctin (group_by_ctin rs gs) ≤ 1
  unfolding group_by_ctin group_row
  group_by_ctin-groups_for [] gs h = h
  group_by_ctin-groups_for (r ∷ rs) gs h = elim (Option-cases r.counterparty_gstin) [
    | inl e ↦ ground (arith, e, group_by_ctin-groups_for rs gs h)
    | inr (c, e) ↦ ground (
      arith,
      e,
      group_by_ctin-groups_for rs (add_to_group c r gs),
      add_to_group-groups_for c r gs,
      h,
    )
  ]

  blocks_of-blocks_for :
      (gs : List Group) (bs : List Block)
      → blocks_of gs ≡ some bs
      → blocks_for ctin bs ≡ groups_for ctin gs
  unfolding blocks_of
  blocks_of-blocks_for [] bs h = ground (arith, h)
  blocks_of-blocks_for (g ∷ gs) bs h = elim (Option-cases (invoice_items g.ctin g.rows)) [
    | inl e ↦ ground (arith, e, h)
    | inr (items, e) ↦ elim (Option-cases (blocks_of gs)) [
      | inl m ↦ ground (arith, e, m, h)
      | inr (rest, m) ↦ ground (arith, e, m, h, blocks_of-blocks_for gs rest m)
    ]
  ]

-- The return of a period, by the rows that the query selects.
abbrev pub IsFaithful : List SaleRow → Gstr1 → Type 0
IsFaithful rows ret =
    (ret.cur_gt ≡ total (λ r. r.total_paise) rows)
    × IsSortedBy block_leb ret.b2b
    × ((ctin : Text) → blocks_for ctin ret.b2b ≤ 1)
    × ((f : Measure) (ctin : Text)
        → under f ctin ret.b2b ≡ total (of_row f) (keep (is_from ctin) rows))

abbrev pub built : Text → Text → List SaleRow → List Block → Gstr1
built gstin fp rows bs = record {
  gstin = gstin;
  fp = fp;
  cur_gt = total (λ r. r.total_paise) rows;
  b2b = sort_by block_leb bs;
}

pub generate_gstr1-IsFaithful :
    (gstin : Text) (gid : ℕ) (period fp : Text) (table : List SaleRow) (bs : List Block)
    → blocks_of (group_by_ctin (keep (is_reported gid period) table) []) ≡ some bs
    → IsFaithful
        (keep (is_reported gid period) table)
        (built gstin fp (keep (is_reported gid period) table) bs)
generate_gstr1-IsFaithful gstin gid period fp table bs e =
    let rows = keep (is_reported gid period) table in
    let gs = group_by_ctin rows [] in
    (
      refl,
      sort_by-IsSortedBy block_leb (λ a b. text_leb_total a.ctin b.ctin)
          (λ a b c. text_leb_trans a.ctin b.ctin c.ctin) bs,
      λ ctin. ground (
        arith,
        total-sort_by (λ b. if text_eq b.ctin ctin then 1 else 0) block_leb bs,
        blocks_of-blocks_for ctin gs bs e,
        group_by_ctin-groups_for ctin rows [] (omega arith),
      ),
      λ f ctin. ground (
        arith,
        total-sort_by (λ b. if text_eq b.ctin ctin then total (of_item f) b.inv else 0) block_leb
            bs,
        blocks_of-under f ctin gs bs e,
        group_by_ctin-in_groups f ctin rows [],
      ),
    )
