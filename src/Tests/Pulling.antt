-- ===== src/Tests/Pulling.antt =====
-- A GSTR-2B with an invoice, a note, and a block without its supplier.
use niyam_ai.Base.{◌+◌, ◌≤◌, ◌≡◌, refl, none, some, List, [], ◌∷◌, codes, total, length}
use niyam_ai.Ingestion.Gstr2b.{
  AmountField, Amounts, Node, Supplier, Document, B2BParseResult, find_b2b_section,
  find_cdnr_section, canonical_period, extract_period, parse_2b_date, sum_items,
  sum_items_or_invoice, build_entry, parse_dated, parse_invoice, parse_note, parse_nodes,
  parse_suppliers, parse_gstr2b_json,
}
use niyam_ai.Ingestion.Money.{
  returned, quantize_half_up, in_context, excess_digits, divide_half_even, paise_of,
  rupees_to_paise,
}
use niyam_ai.Ingestion.Gstr2b.Accounting.{
  node_count, malformed, note_of, invoice_of, parse_gstr2b_json_accounts,
}
use niyam_ai.Tests.Ingesting.{read_decimal, strptime}

abbrev tax_amounts : Amounts
tax_amounts AmountField.val = some (codes "118")
tax_amounts AmountField.txval = some (codes "100")
tax_amounts AmountField.camt = some (codes "9")
tax_amounts AmountField.samt = some (codes "9")
tax_amounts AmountField.iamt = none
tax_amounts AmountField.csamt = none

abbrev invoice : Node
invoice = record {
  number = some (codes "INV-007");
  date = some (codes "2026-06-03");
  ntty = none;
  items = tax_amounts ∷ tax_amounts ∷ [];
  amounts = tax_amounts;
  itcavl = some (codes "n");
  imsactn = none;
  imsts = none;
}

abbrev note : Node
note = record invoice { ntty = some (codes "c"); items = [] }

abbrev document : Document
document = record {
  docdata_b2b = none;
  data_b2b = some (
      (record {
        ctin = some (codes "27aapfu0939f1zv");
        nodes = some (invoice ∷ record invoice { date = none } ∷ []);
      })
      ∷ (record { ctin = none; nodes = some (invoice ∷ []) })
      ∷ []);
  docdata_cdnr =
      some ((record { ctin = some (codes "27AAPFU0939F1ZV"); nodes = some (note ∷ []) }) ∷ []);
  data_cdnr = none;
  data_period = some (codes "062026");
  root_period = none;
}

reader : Unit {0}
unfolding find_b2b_section find_cdnr_section canonical_period extract_period parse_2b_date sum_items
    sum_items_or_invoice build_entry parse_dated parse_invoice parse_note parse_nodes
    parse_suppliers parse_gstr2b_json rupees_to_paise paise_of quantize_half_up in_context
    excess_digits divide_half_even
reader = tt

parses :
    (out : B2BParseResult) × (parse_gstr2b_json read_decimal strptime (codes "p") document
      ≡ some (returned out))
unfolding reader
parses = (_, refl)

period-sample : parses.0.period ≡ some (codes "202606")
unfolding reader parses
period-sample = refl

section : (b2b : List Supplier) × (find_b2b_section document ≡ some b2b)
unfolding reader
section = (_, refl)

parse_gstr2b_json_accounts_example :
    let out = parses.0 in
    (out.invoice_count ≡ total node_count section.0)
    × (out.cdn_note_count ≡ total node_count (find_cdnr_section document))
    × (length out.entries + length out.rejects
        ≡ out.invoice_count
          + out.cdn_note_count
          + (total malformed section.0 + total malformed (find_cdnr_section document)))
    × (total note_of out.entries ≤ out.cdn_note_count)
    × (total invoice_of out.entries ≤ out.invoice_count)
parse_gstr2b_json_accounts_example =
    parse_gstr2b_json_accounts read_decimal strptime (codes "p") document section.0 parses.0
      section.1 parses.1
