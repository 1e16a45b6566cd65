-- ===== src/Filings/Gstr1.antt =====
-- The GSTR-1 return (backend/app/filings/gstr1_generator.py), in paise and in hundredths of a
-- percent: the payload has them as floats, beside sections that are empty. The rows are those of the
-- invoice table, in the order that the query gives.
pub mod Blocks
pub mod Returned
use niyam_ai.Base.{
  ℕ, ◌+◌, ◌*◌, ◌/◌, Bool, true, false, not, ◌&&◌, Option, none, some, List, [], ◌∷◌, ◌++◌, map,
  Text, Date, text_eq, text_leb, length, take, drop, keep, total, sort_by, ◌==◌, ltb, if◌then◌else◌,
}
use niyam_ai.Ingestion.Invoice.{isoformat}
use niyam_ai.Filings.Gstr3b.{to_gstn_period}

-- `is_sale` and `is_active` compare the direction and the status; an empty counterparty is `none`.
pub record SaleRow : Type 0 where
  pub gstin_profile_id : ℕ
  pub is_sale : Bool
  pub is_active : Bool
  pub invoice_number : Text
  pub invoice_date : Date
  pub counterparty_gstin : Option Text
  pub taxable_value_paise : ℕ
  pub cgst_paise : ℕ
  pub sgst_paise : ℕ
  pub igst_paise : ℕ
  pub total_paise : ℕ

-- An element of `inv`, whose `itms` has one item.
pub record InvoiceItem : Type 0 where
  pub inum : Text
  pub idt : Text
  pub val : ℕ
  pub pos : Text
  pub txval : ℕ
  pub rt : ℕ
  pub camt : ℕ
  pub samt : ℕ
  pub iamt : ℕ

pub record Block : Type 0 where
  pub ctin : Text
  pub inv : List InvoiceItem

pub record Gstr1 : Type 0 where
  pub gstin : Text
  pub fp : Text
  pub cur_gt : ℕ
  pub b2b : List Block

-- The rate in hundredths of a percent, rounded half up.
unfoldable pub derive_tax_rate : ℕ → ℕ → ℕ → ℕ → ℕ
derive_tax_rate taxable cgst sgst igst =
    if ltb 0 taxable then ((cgst + sgst + igst) * 10000 * 2 + taxable) / (taxable * 2) else 0

-- `none` is the ValueError.
unfoldable pub place_of_supply : Text → Option Text
place_of_supply ctin = if ltb (length ctin) 2 then none else some (take 2 ctin)

-- `s.split("-")`
unfoldable pub split_dashes : Text → List Text
split_dashes [] = [] ∷ []
split_dashes (c ∷ s) = elim (split_dashes s) [
  | [] ↦ []
  | word ∷ words ↦ if c == b'-' then [] ∷ word ∷ words else (c ∷ word) ∷ words
]

unfoldable pub fmt_invoice_date : Text → Option Text
fmt_invoice_date iso = elim (split_dashes iso) [
  | y ∷ m ∷ d ∷ [] ↦ some (d ++ b'-' ∷ (m ++ b'-' ∷ y))
  | _ ↦ none
]

-- The `WHERE` of the query.
unfoldable pub is_reported : ℕ → Text → SaleRow → Bool
is_reported gid period r =
    r.gstin_profile_id == gid
    && r.is_sale
    && r.is_active
    && text_eq (take 7 (isoformat r.invoice_date)) (take 4 period ++ b'-' ∷ take 2 (drop 4 period))

-- `by_ctin`, in the order of insertion.
pub record Group : Type 0 where
  pub ctin : Text
  pub rows : List SaleRow

-- `by_ctin[ctin].append(r)`
unfoldable pub add_to_group : Text → SaleRow → List Group → List Group
add_to_group ctin r [] = (record { ctin = ctin; rows = r ∷ [] }) ∷ []
add_to_group ctin r (g ∷ gs) =
    let rest = add_to_group ctin r gs in
    if text_eq g.ctin ctin then (record g { rows = g.rows ++ r ∷ [] }) ∷ gs else g ∷ rest

unfoldable pub group_row : SaleRow → List Group → List Group
group_row r gs = elim r.counterparty_gstin [ none ↦ gs | some ctin ↦ add_to_group ctin r gs ]

unfoldable pub group_by_ctin : List SaleRow → List Group → List Group
group_by_ctin [] gs = gs
group_by_ctin (r ∷ rs) gs = group_by_ctin rs (group_row r gs)

-- The fields that need no conversion of text.
abbrev pub item_of : Text → Text → SaleRow → InvoiceItem
item_of idt pos r = record {
  inum = r.invoice_number;
  idt = idt;
  val = r.total_paise;
  pos = pos;
  txval = r.taxable_value_paise;
  rt = derive_tax_rate r.taxable_value_paise r.cgst_paise r.sgst_paise r.igst_paise;
  camt = r.cgst_paise;
  samt = r.sgst_paise;
  iamt = r.igst_paise;
}

unfoldable pub invoice_item : Text → SaleRow → Option InvoiceItem
invoice_item ctin r = elim (fmt_invoice_date (isoformat r.invoice_date)) [
  | none ↦ none
  | some idt ↦ elim (place_of_supply ctin) [ none ↦ none | some pos ↦ some (item_of idt pos r) ]
]

unfoldable pub invoice_items : Text → List SaleRow → Option (List InvoiceItem)
invoice_items ctin [] = some []
invoice_items ctin (r ∷ rs) = elim (invoice_item ctin r) [
  | none ↦ none
  | some item ↦ elim (invoice_items ctin rs) [ none ↦ none | some items ↦ some (item ∷ items) ]
]

unfoldable pub blocks_of : List Group → Option (List Block)
blocks_of [] = some []
blocks_of (g ∷ gs) = elim (invoice_items g.ctin g.rows) [
  | none ↦ none
  | some items ↦ elim (blocks_of gs) [
    | none ↦ none
    | some blocks ↦ some ((record { ctin = g.ctin; inv = items }) ∷ blocks)
  ]
]

abbrev pub block_leb : Block → Block → Bool
block_leb a b = text_leb a.ctin b.ctin

-- `none` is a ValueError.
unfoldable pub generate_gstr1 : Text → ℕ → Text → List SaleRow → Option Gstr1
generate_gstr1 gstin gid period table =
    let rows = keep (is_reported gid period) table in
    elim (blocks_of (group_by_ctin rows [])) [
      | none ↦ none
      | some blocks ↦ elim (to_gstn_period period) [
        | none ↦ none
        | some fp ↦ some (record {
          gstin = gstin;
          fp = fp;
          cur_gt = total (λ r. r.total_paise) rows;
          b2b = sort_by block_leb blocks;
        })
      ]
    ]
