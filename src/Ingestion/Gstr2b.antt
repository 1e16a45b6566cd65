-- ===== src/Ingestion/Gstr2b.antt =====
-- The GSTR-2B parser (backend/app/ingestion/gstr2b_parser.py), on a document whose fields are of the
-- kinds that the format has. A text that is missing, null or empty is `none`; an amount is `none`
-- where it is missing or null, and else the text that `str` gives of it.
pub mod Accounting
use niyam_ai.Base.{
  ℕ, zero, suc, ◌+◌, Bool, true, false, not, ◌&&◌, ◌||◌, Option, none, some, List, [], ◌∷◌, ◌++◌,
  map, Text, codes, Date, text_eq, strip, upper, is_digit, length, take, drop, ◌==◌, if◌then◌else◌,
}
use niyam_ai.Ingestion.Money.{
  Number, Outcome, returned, value_error, invalid_operation, ◌>>=◌, rupees_to_paise,
}
use niyam_ai.Ingestion.Csv.{DateFormat, iso, day_first_dashes, day_first_slashes}

pub data AmountField : Type 0 where
  val txval camt samt iamt csamt : AmountField

abbrev pub Amounts : Type 0
Amounts = AmountField → Option Text

-- An element of `inv[]` or `nt[]`: `inum` or `nt_num`, and `idt` or `nt_dt`.
pub record Node : Type 0 where
  pub number : Option Text
  pub date : Option Text
  pub ntty : Option Text
  pub items : List Amounts
  pub amounts : Amounts
  pub itcavl : Option Text
  pub imsactn : Option Text
  pub imsts : Option Text

-- `nodes` is `none` where `inv` or `nt` is truthy and no list.
pub record Supplier : Type 0 where
  pub ctin : Option Text
  pub nodes : Option (List Node)

-- The lists that stand under `data.docdata` and under `data`, and the `rtnprd` or `period` of
-- `data` and of the document.
pub record Document : Type 0 where
  pub docdata_b2b : Option (List Supplier)
  pub data_b2b : Option (List Supplier)
  pub docdata_cdnr : Option (List Supplier)
  pub data_cdnr : Option (List Supplier)
  pub data_period : Option Text
  pub root_period : Option Text

pub data NoteType : Type 0 where
  credit_note debit_note : NoteType

-- backend/app/ingestion/canonical.py
pub record CanonicalB2BEntry : Type 0 where
  pub gstn_pull_id : Text
  pub supplier_gstin : Text
  pub invoice_number : Text
  pub invoice_date : Date
  pub taxable_value_paise : ℕ
  pub cgst_paise : ℕ
  pub sgst_paise : ℕ
  pub igst_paise : ℕ
  pub cess_paise : ℕ
  pub itc_available : Bool
  pub note_type : Option NoteType
  pub ims_status : Option Text
  pub ims_action : Option Text

pub data Reason : Type 0 where
  schema missing_required bad_date bad_amount : Reason

pub record RejectedRow : Type 0 where
  pub row_index : ℕ
  pub reason : Reason

pub record B2BParseResult : Type 0 where
  pub entries : List CanonicalB2BEntry
  pub rejects : List RejectedRow
  pub period : Option Text
  pub ctin_count : ℕ
  pub invoice_count : ℕ
  pub cdn_note_count : ℕ

-- The state of a section's loops: `count` is `invoice_count` or `cdn_note_count`.
pub record Progress : Type 0 where
  pub entries : List CanonicalB2BEntry
  pub rejects : List RejectedRow
  pub count : ℕ

pub data Parsed : Type 0 where
  accepted : CanonicalB2BEntry → Parsed
  rejected : Reason → Parsed

abbrev pub first_of {ℓ} : {A : Type ℓ} → Option A → Option A → Option A
first_of (some a) o = some a
first_of none o = o

abbrev pub text_or : Text → Option Text → Text
text_or d none = d
text_or d (some s) = s

abbrev all_digits : Text → Bool
all_digits [] = true
all_digits (c ∷ s) = is_digit c && all_digits s

unfoldable pub find_b2b_section : Document → Option (List Supplier)
find_b2b_section doc = first_of doc.docdata_b2b doc.data_b2b

unfoldable pub find_cdnr_section : Document → List Supplier
find_cdnr_section doc = elim (first_of doc.docdata_cdnr doc.data_cdnr) [ none ↦ [] | some l ↦ l ]

-- MMYYYY to YYYYMM
unfoldable pub canonical_period : Option Text → Option Text
canonical_period none = none
canonical_period (some p) =
    if length p == 6 && all_digits p then some (drop 2 p ++ take 2 p) else none

unfoldable pub extract_period : Document → Option Text
extract_period doc = first_of (canonical_period doc.data_period) (canonical_period doc.root_period)

-- `str(x).strip() if x else None`
abbrev passthrough : Option Text → Option Text
passthrough none = none
passthrough (some s) = some (strip s)

abbrev itc_flag : Node → Bool
itc_flag n = text_eq (map upper (text_or (codes "Y") n.itcavl)) (codes "Y")

module _ (read_decimal : Text → Number) (strptime : DateFormat → Text → Option Date) where
  -- `none` is the ValueError.
  unfoldable pub parse_2b_date : Text → Option Date
  parse_2b_date raw =
      first_of (strptime day_first_dashes (strip raw))
        (first_of (strptime iso (strip raw)) (strptime day_first_slashes (strip raw)))

  unfoldable pub sum_items : AmountField → List Amounts → Outcome ℕ
  sum_items k [] = returned 0
  sum_items k (it ∷ items) = do
    a ← rupees_to_paise read_decimal (it k)
    rest ← sum_items k items
    returned (a + rest)

  -- The five sums over the items, or the five amounts of the invoice.
  unfoldable pub sum_items_or_invoice : Node → Outcome (ℕ × ℕ × ℕ × ℕ × ℕ)
  sum_items_or_invoice n = elim n.items [
    | [] ↦ do
      t ← rupees_to_paise read_decimal (n.amounts val)
      c ← rupees_to_paise read_decimal (n.amounts camt)
      s ← rupees_to_paise read_decimal (n.amounts samt)
      i ← rupees_to_paise read_decimal (n.amounts iamt)
      z ← rupees_to_paise read_decimal (n.amounts csamt)
      returned (t, c, s, i, z)
    | it ∷ items ↦ do
      t ← sum_items txval (it ∷ items)
      c ← sum_items camt (it ∷ items)
      s ← sum_items samt (it ∷ items)
      i ← sum_items iamt (it ∷ items)
      z ← sum_items csamt (it ∷ items)
      returned (t, c, s, i, z)
  ]

  module _ (gstn_pull_id : Text) where
    unfoldable pub build_entry :
        Text → Text → Date → Option NoteType → Node → ℕ × ℕ × ℕ × ℕ × ℕ → CanonicalB2BEntry
    build_entry ctin number date note n (t, c, s, i, z) = record {
      gstn_pull_id = gstn_pull_id;
      supplier_gstin = ctin;
      invoice_number = number;
      invoice_date = date;
      taxable_value_paise = t;
      cgst_paise = c;
      sgst_paise = s;
      igst_paise = i;
      cess_paise = z;
      itc_available = itc_flag n;
      note_type = note;
      ims_status = passthrough n.imsts;
      ims_action = passthrough n.imsactn;
    }

    -- What both loops do with a record whose number and date are there.
    unfoldable pub parse_dated : Text → Text → Text → Option NoteType → Node → Outcome Parsed
    parse_dated ctin number raw note n = elim (parse_2b_date raw) [
      | none ↦ returned (rejected bad_date)
      | some d ↦ elim (sum_items_or_invoice n) [
        | returned a ↦ returned (accepted (build_entry ctin number d note n a))
        | value_error ↦ returned (rejected bad_amount)
        | invalid_operation ↦ invalid_operation
      ]
    ]

    unfoldable pub parse_invoice : Text → Node → Outcome Parsed
    parse_invoice ctin n = elim n.number [
      | none ↦ returned (rejected missing_required)
      | some inum ↦ elim n.date [
        | none ↦ returned (rejected missing_required)
        | some idt ↦ parse_dated ctin inum idt none n
      ]
    ]

    -- `none` unless `ntty` is C or D.
    abbrev pub note_type_of : Node → Option NoteType
    note_type_of n =
        let ntty = map upper (text_or [] n.ntty) in
        if text_eq ntty (codes "C")
        then some credit_note
        else if text_eq ntty (codes "D")
        then some debit_note
        else none

    unfoldable pub parse_note : Text → Node → Outcome Parsed
    parse_note ctin n = elim n.number [
      | none ↦ returned (rejected missing_required)
      | some num ↦ elim n.date [
        | none ↦ returned (rejected missing_required)
        | some dt ↦ elim (note_type_of n) [
          | none ↦ returned (rejected missing_required)
          | some note ↦ parse_dated ctin num dt (some note) n
        ]
      ]
    ]

    abbrev pub push : Progress → Parsed → Progress
    push st (accepted e) = record {
      entries = st.entries ++ e ∷ [];
      rejects = st.rejects;
      count = st.count + 1;
    }
    push st (rejected why) = record {
      entries = st.entries;
      rejects = st.rejects ++ (record { row_index = st.count + 1; reason = why }) ∷ [];
      count = st.count + 1;
    }

    module _ (parse : Text → Node → Outcome Parsed) where
      unfoldable pub parse_nodes : Text → List Node → Progress → Outcome Progress
      parse_nodes ctin [] st = returned st
      parse_nodes ctin (n ∷ ns) st = do p ← parse ctin n; parse_nodes ctin ns (push st p)

      abbrev pub schema_reject : ℕ → Progress → Progress
      schema_reject ci st = record st {
        rejects = st.rejects ++ (record { row_index = ci; reason = schema }) ∷ [];
      }

      -- A section's loop from supplier `ci` on.
      unfoldable pub parse_suppliers : ℕ → List Supplier → Progress → Outcome Progress
      parse_suppliers ci [] st = returned st
      parse_suppliers ci (s ∷ ss) st = elim s.ctin [
        | none ↦ parse_suppliers (ci + 1) ss (schema_reject ci st)
        | some ctin ↦ elim s.nodes [
          | none ↦ parse_suppliers (ci + 1) ss (schema_reject ci st)
          | some ns ↦ do st' ← parse_nodes (map upper ctin) ns st; parse_suppliers (ci + 1) ss st'
        ]
      ]

    -- `none` is the SchemaError.
    unfoldable pub parse_gstr2b_json : Document → Option (Outcome B2BParseResult)
    parse_gstr2b_json doc = elim (find_b2b_section doc) [
      | none ↦ none
      | some b2b ↦ some (do
        inv ← parse_suppliers parse_invoice 0 b2b (record { entries = []; rejects = []; count = 0 })
        cdn ← parse_suppliers parse_note 0 (find_cdnr_section doc) (record inv { count = 0 })
        returned (record {
          entries = cdn.entries;
          rejects = cdn.rejects;
          period = extract_period doc;
          ctin_count = length b2b;
          invoice_count = inv.count;
          cdn_note_count = cdn.count;
        }))
    ]
