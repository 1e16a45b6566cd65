-- ===== src/Filings/Gstr1/Returned.antt =====
-- When a GSTR-1 is made, and what it holds then (backend/app/filings/gstr1_generator.py).
use niyam_ai.Base.{
  ℕ, ◌+◌, ◌≤◌, ◌≡◌, refl, some, List, [], ◌∷◌, ◌++◌, arith, Text, text_eq, All, length, keep,
  Option-cases, Bool-cases, inl, inr, Date, take, ◌/◌, ◌%◌,
}
use niyam_ai.Ingestion.Invoice.{isoformat}
use niyam_ai.Filings.Gstr3b.{to_gstn_period}
use niyam_ai.Filings.Gstr1.{
  SaleRow, InvoiceItem, Block, Gstr1, Group, is_reported, add_to_group, group_row, group_by_ctin,
  item_of, invoice_item, invoice_items, split_dashes, fmt_invoice_date, place_of_supply, blocks_of,
  generate_gstr1,
}
use niyam_ai.Filings.Gstr1.Blocks.{IsFaithful, built, generate_gstr1-IsFaithful}

-- A counterparty that has a state code.
abbrev pub HasStateCode : SaleRow → Type 0
HasStateCode r = (c : Text) → r.counterparty_gstin ≡ some c → 2 ≤ length c

split_dashes-digit :
    (n : ℕ) (s w : Text) (ws : List Text)
    → split_dashes s ≡ w ∷ ws
    → split_dashes ((48 + n) ∷ s) ≡ ((48 + n) ∷ w) ∷ ws
unfolding split_dashes
split_dashes-digit n s w ws h = ground (arith, h)

split_dashes-dash :
    (s w : Text) (ws : List Text) → split_dashes s ≡ w ∷ ws → split_dashes (45 ∷ s) ≡ [] ∷ w ∷ ws
unfolding split_dashes
split_dashes-dash s w ws h = ground (arith, h)

split_dashes-none : split_dashes [] ≡ [] ∷ []
unfolding split_dashes
split_dashes-none = refl

-- Two digits before a text that is split.
split_dashes-two :
    (m n : ℕ) (s w : Text) (ws : List Text)
    → split_dashes s ≡ w ∷ ws
    → split_dashes ((48 + m) ∷ (48 + n) ∷ s) ≡ ((48 + m) ∷ (48 + n) ∷ w) ∷ ws
split_dashes-two m n s w ws h =
    split_dashes-digit m ((48 + n) ∷ s) ((48 + n) ∷ w) ws (split_dashes-digit n s w ws h)

split_dashes-isoformat :
    (d : Date)
    → (y : Text) × (m : Text) × (t : Text) × (split_dashes (isoformat d) ≡ y ∷ m ∷ t ∷ [])
split_dashes-isoformat d =
    let day = split_dashes-two (d.day / 10 % 10) (d.day % 10) [] [] [] split_dashes-none in
    let month =
      split_dashes-two (d.month / 10 % 10) (d.month % 10) _ [] _ (split_dashes-dash _ _ _ day) in
    let year =
      split_dashes-two (d.year / 10 % 10) (d.year % 10) _ [] _ (split_dashes-dash _ _ _ month) in
    (_, _, _, split_dashes-two (d.year / 100 / 10 % 10) (d.year / 100 % 10) _ _ _ year)

fmt_invoice_date-isoformat : (d : Date) → (t : Text) × (fmt_invoice_date (isoformat d) ≡ some t)
unfolding fmt_invoice_date
fmt_invoice_date-isoformat d =
    let (y, m, t, e) = split_dashes-isoformat d in (t ++ b'-' ∷ (m ++ b'-' ∷ y), ground (arith, e))

invoice_item-some :
    (c : Text) (r : SaleRow) → 2 ≤ length c → (item : InvoiceItem) × (invoice_item c r ≡ some item)
unfolding invoice_item place_of_supply
invoice_item-some c r h =
    let (t, e) = fmt_invoice_date-isoformat r.invoice_date in
    (item_of t (take 2 c) r, ground (arith, e, h))

invoice_items-some :
    (c : Text) (rs : List SaleRow)
    → 2 ≤ length c
    → (items : List InvoiceItem) × (invoice_items c rs ≡ some items)
unfolding invoice_items
invoice_items-some c [] h = ([], refl)
invoice_items-some c (r ∷ rs) h =
    let (item, e) = invoice_item-some c r h in
    let (items, m) = invoice_items-some c rs h in (item ∷ items, ground (arith, e, m))

blocks_of-some :
    (gs : List Group)
    → All (λ g. 2 ≤ length g.ctin) gs
    → (bs : List Block) × (blocks_of gs ≡ some bs)
unfolding blocks_of
blocks_of-some [] h = ([], refl)
blocks_of-some (g ∷ gs) h =
    let (items, e) = invoice_items-some g.ctin g.rows h.0 in
    let (bs, m) = blocks_of-some gs h.1 in
    ((record { ctin = g.ctin; inv = items }) ∷ bs, ground (arith, e, m))

add_to_group-All :
    (c : Text) (r : SaleRow) (gs : List Group)
    → 2 ≤ length c
    → All (λ g. 2 ≤ length g.ctin) gs
    → All (λ g. 2 ≤ length g.ctin) (add_to_group c r gs)
unfolding add_to_group
add_to_group-All c r [] h k = (h, tt)
add_to_group-All c r (g ∷ gs) h k = elim (Bool-cases (text_eq g.ctin c)) [
  | inl same ↦ rw same (k.0, k.1)
  | inr other ↦ rw other (k.0, add_to_group-All c r gs h k.1)
]

group_by_ctin-All :
    (rs : List SaleRow) (gs : List Group)
    → All HasStateCode rs
    → All (λ g. 2 ≤ length g.ctin) gs
    → All (λ g. 2 ≤ length g.ctin) (group_by_ctin rs gs)
unfolding group_by_ctin group_row
group_by_ctin-All [] gs h k = k
group_by_ctin-All (r ∷ rs) gs h k = elim (Option-cases r.counterparty_gstin) [
  | inl e ↦ ground (arith, e, group_by_ctin-All rs gs h.1 k)
  | inr (c, e) ↦ ground (
    arith,
    e,
    group_by_ctin-All rs (add_to_group c r gs) h.1 (add_to_group-All c r gs (h.0 c e) k),
  )
]

-- For a period of six digits, and sale invoices of which every counterparty has at least the two
-- characters of a state code, the return is made: its turnover is the sum over all invoices that
-- the query selects, its blocks are sorted by counterparty with one block at most for each, and the
-- invoices in a counterparty's block have the sums of that counterparty's rows, whatever is summed
-- of the total, the taxable value and the tax heads: amounts, or one for each invoice.
pub generate_gstr1-returns :
    (gstin : Text) (gid : ℕ) (period fp : Text) (table : List SaleRow)
    → to_gstn_period period ≡ some fp
    → All HasStateCode (keep (is_reported gid period) table)
    → (ret : Gstr1) × (generate_gstr1 gstin gid period table ≡ some ret)
      × IsFaithful (keep (is_reported gid period) table) ret
unfolding generate_gstr1
generate_gstr1-returns gstin gid period fp table p h =
    let rows = keep (is_reported gid period) table in
    let (bs, e) = blocks_of-some (group_by_ctin rows []) (group_by_ctin-All rows [] h tt) in
    (
      built gstin fp rows bs,
      ground (arith, e, p),
      generate_gstr1-IsFaithful gstin gid period fp table bs e,
    )
