-- ===== src/Ingestion/Gstr2b/Accounting.antt =====
-- Where the records of a GSTR-2B end up (backend/app/ingestion/gstr2b_parser.py).
use niyam_ai.Base.{
  ℕ, ◌+◌, ◌*◌, ◌≤◌, ◌≡◌, ap, Option, none, some, List, [], ◌∷◌, arith, Text, Date, total,
  total-append, length, length-append, Option-cases, inl, inr, map, upper,
}
use niyam_ai.Ingestion.Money.{Number, Outcome, returned, ◌>>=◌, >>=-eq-returned}
use niyam_ai.Ingestion.Csv.{DateFormat}
use niyam_ai.Ingestion.Gstr2b.{
  Node, Supplier, Document, NoteType, CanonicalB2BEntry, B2BParseResult, Progress, Parsed, accepted,
  rejected, schema, find_b2b_section, extract_period, find_cdnr_section, build_entry, parse_dated,
  parse_invoice, parse_note, note_type_of, push, schema_reject, parse_nodes, parse_suppliers,
  parse_gstr2b_json,
}

-- The records of a block that names its supplier and has a list, and whether a block is another.
abbrev pub node_count : Supplier → ℕ
node_count s = elim s.ctin [ none ↦ 0 | some c ↦ elim s.nodes [ none ↦ 0 | some ns ↦ length ns ] ]

abbrev pub malformed : Supplier → ℕ
malformed s = elim s.ctin [ none ↦ 1 | some c ↦ elim s.nodes [ none ↦ 1 | some ns ↦ 0 ] ]

abbrev pub note_of : CanonicalB2BEntry → ℕ
note_of e = elim e.note_type [ none ↦ 0 | some t ↦ 1 ]

abbrev pub invoice_of : CanonicalB2BEntry → ℕ
invoice_of e = elim e.note_type [ none ↦ 1 | some t ↦ 0 ]

module _ (read_decimal : Text → Number) (strptime : DateFormat → Text → Option Date)
    (gid : Text) where
  -- What a run of a section's loops adds to its state.
  abbrev Adds : (w : CanonicalB2BEntry → ℕ) (c n bad : ℕ) → Progress → Progress → Type 0
  Adds w c n bad st st' =
      (st'.count ≡ st.count + n)
      × (length st'.entries + length st'.rejects ≡ length st.entries + length st.rejects + n + bad)
      × (total w st'.entries ≤ total w st.entries + c * n)

  module _ (parse : Text → Node → Outcome Parsed) (w : CanonicalB2BEntry → ℕ) (c : ℕ)
      (light : (ctin : Text) (n : Node) (e : CanonicalB2BEntry)
        → parse ctin n ≡ returned (accepted e)
        → w e ≤ c) where
    push-Adds :
        (ctin : Text) (n : Node) (st : Progress) (p : Parsed)
        → parse ctin n ≡ returned p
        → Adds w c 1 0 st (push read_decimal strptime gid st p)
    push-Adds ctin n st (accepted e) h = omega (
      arith,
      length-append st.entries (e ∷ []),
      total-append w st.entries (e ∷ []),
      light ctin n e h,
    )
    push-Adds ctin n st (rejected why) h =
        omega (
          arith,
          length-append st.rejects ((record { row_index = st.count + 1; reason = why }) ∷ []),
        )

    parse_nodes-Adds :
        (ctin : Text) (ns : List Node) (st st' : Progress)
        → parse_nodes read_decimal strptime gid parse ctin ns st ≡ returned st'
        → Adds w c (length ns) 0 st st'
    unfolding parse_nodes
    parse_nodes-Adds ctin [] st st' h = ground arith
    parse_nodes-Adds ctin (n ∷ ns) st st' h =
        let (p, hp, rest) =
          >>=-eq-returned (parse ctin n)
            (λ p.
              parse_nodes read_decimal strptime gid parse ctin ns
                (push read_decimal strptime gid st p))
            h in
        omega (arith, push-Adds ctin n st p hp, parse_nodes-Adds ctin ns _ st' rest)

    schema-Adds :
        (ci : ℕ) (s : Supplier) (ss : List Supplier) (st st' : Progress)
        → node_count s ≡ 0
        → malformed s ≡ 1
        → Adds w c
            (total node_count ss)
            (total malformed ss)
            (schema_reject read_decimal strptime gid parse ci st)
            st'
        → Adds w c (total node_count (s ∷ ss)) (total malformed (s ∷ ss)) st st'
    schema-Adds ci s ss st st' size bad next = omega (
      arith,
      size,
      ap (λ z. c * z) size,
      bad,
      next,
      length-append st.rejects ((record { row_index = ci; reason = schema }) ∷ []),
    )

    parse_suppliers-Adds :
        (ci : ℕ) (ss : List Supplier) (st st' : Progress)
        → parse_suppliers read_decimal strptime gid parse ci ss st ≡ returned st'
        → Adds w c (total node_count ss) (total malformed ss) st st'
    unfolding parse_suppliers
    parse_suppliers-Adds ci [] st st' h = ground arith
    parse_suppliers-Adds ci (s ∷ ss) st st' h = elim (Option-cases s.ctin) [
      | inl unnamed ↦ schema-Adds ci s ss st st' (ground arith) (ground arith) (
          parse_suppliers-Adds (ci + 1) ss (schema_reject read_decimal strptime gid parse ci st) st'
            (ground arith))
      | inr (ctin, named) ↦ elim (Option-cases s.nodes) [
        | inl unlisted ↦ schema-Adds ci s ss st st' (ground arith) (ground arith) (
            parse_suppliers-Adds (ci + 1) ss (schema_reject read_decimal strptime gid parse ci st)
              st' (ground arith))
        | inr (ns, listed) ↦
            let (st1, h1, h2) =
              >>=-eq-returned (parse_nodes read_decimal strptime gid parse (map upper ctin) ns st)
                (λ q. parse_suppliers read_decimal strptime gid parse (ci + 1) ss q) {b = st'}
                (ground arith) in
            let size : node_count s ≡ length ns = ground arith in
            let good : malformed s ≡ 0 = ground arith in
            omega (
              arith,
              size,
              ap (λ z. c * z) size,
              good,
              parse_nodes-Adds (map upper ctin) ns st st1 h1,
              parse_suppliers-Adds (ci + 1) ss st1 st' h2,
            )
      ]
    ]

  parse_dated-note :
      (ctin number raw : Text) (kind : Option NoteType) (n : Node) (e : CanonicalB2BEntry)
      → parse_dated read_decimal strptime gid ctin number raw kind n ≡ returned (accepted e)
      → e.note_type ≡ kind
  unfolding parse_dated build_entry
  parse_dated-note ctin number raw kind n e h = ground arith

  parse_invoice-note :
      (ctin : Text) (n : Node) (e : CanonicalB2BEntry)
      → parse_invoice read_decimal strptime gid ctin n ≡ returned (accepted e)
      → (note_of e ≡ 0) × (invoice_of e ≡ 1)
  unfolding parse_invoice
  parse_invoice-note ctin n e h = elim (Option-cases n.number) [
    | inl missing ↦ absurd (ground arith)
    | inr (num, e1) ↦ elim (Option-cases n.date) [
      | inl missing ↦ absurd (ground arith)
      | inr (dt, e2) ↦
          let t = parse_dated-note ctin num dt none n e (ground arith) in
          (ground (arith, t), ground (arith, t))
    ]
  ]

  parse_note-note :
      (ctin : Text) (n : Node) (e : CanonicalB2BEntry)
      → parse_note read_decimal strptime gid ctin n ≡ returned (accepted e)
      → (note_of e ≡ 1) × (invoice_of e ≡ 0)
  unfolding parse_note
  parse_note-note ctin n e h = elim (Option-cases n.number) [
    | inl missing ↦ absurd (ground arith)
    | inr (num, e1) ↦ elim (Option-cases n.date) [
      | inl missing ↦ absurd (ground arith)
      | inr (dt, e2) ↦ elim (Option-cases (note_type_of read_decimal strptime gid n)) [
        | inl unknown ↦ absurd (ground arith)
        | inr (note, e3) ↦
            let t = parse_dated-note ctin num dt (some note) n e (ground arith) in
            (ground (arith, t), ground (arith, t))
      ]
    ]
  ]

  -- A parse that returns accounts for every record of the document. The counters are those of the
  -- records in blocks that name their supplier and have a list. Entries and rejects together are the
  -- counted records and the other blocks, and of the entries no more are notes than notes were
  -- counted, and no more are invoices than invoices were counted.
  pub parse_gstr2b_json_accounts :
      (doc : Document) (b2b : List Supplier) (out : B2BParseResult)
      → find_b2b_section doc ≡ some b2b
      → parse_gstr2b_json read_decimal strptime gid doc ≡ some (returned out)
      → (out.invoice_count ≡ total node_count b2b)
        × (out.cdn_note_count ≡ total node_count (find_cdnr_section doc))
        × (length out.entries + length out.rejects
            ≡ out.invoice_count
              + out.cdn_note_count
              + (total malformed b2b + total malformed (find_cdnr_section doc)))
        × (total note_of out.entries ≤ out.cdn_note_count)
        × (total invoice_of out.entries ≤ out.invoice_count)
  unfolding parse_gstr2b_json
  parse_gstr2b_json_accounts doc b2b out found h =
      let start : Progress = record { entries = []; rejects = []; count = 0 } in
      let inv_run : Outcome Progress =
        parse_suppliers read_decimal strptime gid (parse_invoice read_decimal strptime gid) 0 b2b
          start in
      let cdn_run : Progress → Outcome Progress = λ inv.
        parse_suppliers read_decimal strptime gid (parse_note read_decimal strptime gid) 0
          (find_cdnr_section doc) (record inv { count = 0 }) in
      let finish : Progress → Progress → B2BParseResult = λ inv cdn. record {
        entries = cdn.entries;
        rejects = cdn.rejects;
        period = extract_period doc;
        ctin_count = length b2b;
        invoice_count = inv.count;
        cdn_note_count = cdn.count;
      } in
      let both : (inv_run >>= λ inv. (cdn_run inv >>= λ cdn. returned (finish inv cdn)))
          ≡ returned out =
        ground (arith, h, found) in
      let (inv, ran_inv, k) =
        >>=-eq-returned inv_run (λ inv. cdn_run inv >>= λ cdn. returned (finish inv cdn)) {b = out}
          both in
      let (cdn, ran_cdn, ends) =
        >>=-eq-returned (cdn_run inv) (λ cdn. returned (finish inv cdn)) {b = out} k in
      let entries : out.entries ≡ cdn.entries = ground (arith, ends) in
      let rejects : out.rejects ≡ cdn.rejects = ground (arith, ends) in
      let invoices : out.invoice_count ≡ inv.count = ground (arith, ends) in
      let notes : out.cdn_note_count ≡ cdn.count = ground (arith, ends) in
      omega (
        arith,
        ap length entries,
        ap length rejects,
        ap (total note_of) entries,
        ap (total invoice_of) entries,
        invoices,
        notes,
        parse_suppliers-Adds (parse_invoice read_decimal strptime gid) note_of 0
            (λ ctin n e p. omega (arith, parse_invoice-note ctin n e p)) 0 b2b start inv ran_inv,
        parse_suppliers-Adds (parse_invoice read_decimal strptime gid) invoice_of 1
            (λ ctin n e p. omega (arith, parse_invoice-note ctin n e p)) 0 b2b start inv ran_inv,
        parse_suppliers-Adds (parse_note read_decimal strptime gid) note_of 1
            (λ ctin n e p. omega (arith, parse_note-note ctin n e p)) 0 (find_cdnr_section doc)
            (record inv { count = 0 }) cdn ran_cdn,
        parse_suppliers-Adds (parse_note read_decimal strptime gid) invoice_of 0
            (λ ctin n e p. omega (arith, parse_note-note ctin n e p)) 0 (find_cdnr_section doc)
            (record inv { count = 0 }) cdn ran_cdn,
      )
