-- ===== src/IrsStub/Decoding/WellFormed.antt =====
-- irs/internal/stub/server.go, `decodeTransmission`: what it lets through.
use soraban.Shared.{
  ◌≤◌, true, false, String, str_eq, codes, Option, none, some, List, [], ◌∷◌, length, All, ◌≡◌,
  refl, sym, subst, arith, Bool-cases, Option-cases, inl, inr, eq_iff,
}
use soraban.Shared.Int.{ℤ}
use soraban.Lifecycle.{Bytes}
use soraban.IrsStub.Model.{FilingRecord, Transmission, contains}
use soraban.IrsStub.Money.{parse_cents}
use soraban.IrsStub.Decoding.{
  FilingRecordXml, ManifestXml, SubmissionHeaderXml, SubmissionXml, TransmissionXml, RequestXml,
  is_utid, decode_records, filing_record, record_of, cons_record, the_transmission, transmission_of,
  lacks_names, is_other_form, is_miscounted, checked, of_headers, of_parts, of_document,
  decode_transmission,
}

abbrev pub Named : FilingRecord → Type 0
Named r = str_eq r.record_id "" ≡ false

-- No two records have one ID.
abbrev pub Distinct : List FilingRecord → Type 0
Distinct [] = Unit
Distinct (r ∷ rs) =
    All (λ (q : FilingRecord). str_eq r.record_id q.record_id ≡ false) rs × Distinct rs

pub record WellFormed (t : Transmission) : Type 0 where
  pub has_firm : str_eq t.firm_id "" ≡ false
  pub has_client : str_eq t.client_id "" ≡ false
  pub has_utid : str_eq t.utid "" ≡ false
  pub utid : is_utid t.firm_id t.utid ≡ true
  pub tax_year : t.tax_year ≡ "2025"
  pub some_records : 1 ≤ length t.records
  pub at_most_100 : length t.records ≤ 100
  pub named : All Named t.records
  pub distinct : Distinct t.records

abbrev Unseen : List String → FilingRecord → Type 0
Unseen seen r = contains r.record_id seen ≡ false

abbrev Decoded : List String → List FilingRecordXml → List FilingRecord → Type 0
Decoded seen rs records =
    (length records ≡ length rs) × All Named records × All (Unseen seen) records × Distinct records

weaken :
    (x : String) (seen : List String) (rs : List FilingRecord)
    → All (Unseen (x ∷ seen)) rs
    → All (Unseen seen) rs × All (λ (q : FilingRecord). str_eq x q.record_id ≡ false) rs
weaken x seen [] h = (tt, tt)
weaken x seen (r ∷ rs) h =
    let (a, b) = weaken x seen rs h.1 in
    elim (Bool-cases (str_eq x r.record_id)) [
      | inl e ↦ absurd (cc (e, h.0))
      | inr e ↦ ((cc (e, h.0), a), (e, b))
    ]

-- A list with a record in front of another list.
abbrev Front : String → Option (List FilingRecord) → List FilingRecord → Type 0
Front id rest records =
    (q : FilingRecord) × ((tail : List FilingRecord) × (q.record_id ≡ id)
      × (rest ≡ some tail)
      × (records ≡ q ∷ tail))

cons_record-Front :
    (r : FilingRecordXml) (amount withholding : Option ℤ) (rest : Option (List FilingRecord))
    (records : List FilingRecord)
    → cons_record (record_of r amount withholding) rest ≡ some records
    → Front r.record_id rest records
unfolding cons_record record_of filing_record
cons_record-Front r (some a) (some w) (some tail) records h =
    (filing_record r a w, (tail, refl, refl, cc h))
cons_record-Front r (some a) (some w) none records h = absurd (cc h)
cons_record-Front r none w rest records h = absurd (cc h)
cons_record-Front r (some a) none rest records h = absurd (cc h)

decode_records-Front :
    (seen : List String) (r : FilingRecordXml) (rs : List FilingRecordXml)
    (records : List FilingRecord)
    → decode_records seen (r ∷ rs) ≡ some records
    → (str_eq r.record_id "" ≡ false)
      × (contains r.record_id seen ≡ false)
      × Front r.record_id (decode_records (r.record_id ∷ seen) rs) records
unfolding decode_records
decode_records-Front seen r rs records h =
    let named : str_eq r.record_id "" ≡ false = ground (arith, h) in
    let new : contains r.record_id seen ≡ false = ground (arith, h) in
    let made : cons_record
          (record_of r (parse_cents (codes r.nonemployee_compensation_amount))
            (parse_cents (codes r.federal_income_tax_withheld_amount)))
          (decode_records (r.record_id ∷ seen) rs)
        ≡ some records =
      ground (arith, h) in
    (named, new, cons_record-Front r _ _ _ records made)

decode_records-Decoded :
    (seen : List String) (rs : List FilingRecordXml) (records : List FilingRecord)
    → decode_records seen rs ≡ some records
    → Decoded seen rs records
unfolding decode_records
decode_records-Decoded seen [] records h =
    let e : [] ≡ records = cc h in subst (Decoded seen []) e (refl, tt, tt, tt)
decode_records-Decoded seen (r ∷ rs) records h =
    let (named, new, (q, (tail, same, rest, made))) = decode_records-Front seen r rs records h in
    let (size, names, unseen, distinct) =
      decode_records-Decoded (r.record_id ∷ seen) rs tail rest in
    let (before, apart) = weaken r.record_id seen tail unseen in
    subst (Decoded seen (r ∷ rs)) (sym made) (
      omega (arith, size),
      (cc (named, same), names),
      (cc (new, same), before),
      (
        subst (λ id. All (λ (p : FilingRecord). str_eq id p.record_id ≡ false) tail) (sym same)
            apart,
        distinct,
      ),
    )

with_records-WellFormed :
    (manifest : ManifestXml) (header : SubmissionHeaderXml) (rs : List FilingRecordXml)
    (t : Transmission)
    → (str_eq manifest.unique_transmission_id "" ≡ false)
    → (str_eq manifest.transmitter_control_cd "" ≡ false)
    → (str_eq header.client_id "" ≡ false)
    → (manifest.tax_year ≡ "2025")
    → (is_utid manifest.transmitter_control_cd manifest.unique_transmission_id ≡ true)
    → (1 ≤ length rs) × (length rs ≤ 100)
    → transmission_of manifest header (decode_records [] rs) ≡ some t
    → WellFormed t
unfolding transmission_of the_transmission
with_records-WellFormed manifest header rs t utid firm client year shape size h =
    elim (Option-cases (decode_records [] rs)) [
      | inl e ↦ absurd (cc (h, e))
      | inr (records, e) ↦
          let (same_size, names, _, distinct) = decode_records-Decoded [] rs records e in
          let same : the_transmission manifest header records ≡ t = cc (h, e) in
          subst WellFormed same (record {
            has_firm = firm;
            has_client = client;
            has_utid = utid;
            utid = shape;
            tax_year = year;
            some_records = omega (arith, same_size, size.0);
            at_most_100 = omega (arith, same_size, size.1);
            named = names;
            distinct = distinct;
          })
    ]

lacks_names-false :
    (manifest : ManifestXml) (header : SubmissionHeaderXml)
    → lacks_names manifest header ≡ false
    → (str_eq manifest.unique_transmission_id "" ≡ false)
      × (str_eq manifest.transmitter_control_cd "" ≡ false)
      × (str_eq header.client_id "" ≡ false)
unfolding lacks_names
lacks_names-false manifest header h = (ground (arith, h), ground (arith, h), ground (arith, h))

is_other_form-false :
    (manifest : ManifestXml) (header : SubmissionHeaderXml)
    → is_other_form manifest header ≡ false
    → manifest.tax_year ≡ "2025"
unfolding is_other_form
is_other_form-false manifest header h =
    let year : str_eq manifest.tax_year "2025" ≡ true = ground (arith, h) in
    (eq_iff manifest.tax_year "2025").0 year

is_miscounted-false :
    (header : SubmissionHeaderXml) (rs : List FilingRecordXml)
    → is_miscounted header rs ≡ false
    → (1 ≤ length rs) × (length rs ≤ 100)
unfolding is_miscounted
is_miscounted-false header rs h = (ground (arith, h), ground (arith, h))

checked-WellFormed :
    (manifest : ManifestXml) (header : SubmissionHeaderXml) (rs : List FilingRecordXml)
    (t : Transmission)
    → checked manifest header rs ≡ some t
    → WellFormed t
unfolding checked
checked-WellFormed manifest header rs t h =
    let names : lacks_names manifest header ≡ false = ground (arith, h) in
    let form : is_other_form manifest header ≡ false = ground (arith, h) in
    let shape : is_utid manifest.transmitter_control_cd manifest.unique_transmission_id ≡ true =
      ground (arith, h) in
    let size : is_miscounted header rs ≡ false = ground (arith, h) in
    let made : transmission_of manifest header (decode_records [] rs) ≡ some t =
      ground (arith, h) in
    let (utid, firm, client) = lacks_names-false manifest header names in
    with_records-WellFormed manifest header rs t utid firm client
      (is_other_form-false manifest header form) shape (is_miscounted-false header rs size) made

of_headers-WellFormed :
    (manifest : ManifestXml) (rs : List FilingRecordXml) (headers : List SubmissionHeaderXml)
    (t : Transmission)
    → of_headers manifest rs headers ≡ some t
    → WellFormed t
unfolding of_headers
of_headers-WellFormed manifest rs (header ∷ []) t h = checked-WellFormed manifest header rs t h
of_headers-WellFormed manifest rs [] t h = absurd (cc h)
of_headers-WellFormed manifest rs (a ∷ b ∷ hs) t h = absurd (cc h)

of_parts-WellFormed :
    (ms : List ManifestXml) (ss : List SubmissionXml) (t : Transmission)
    → of_parts ms ss ≡ some t
    → WellFormed t
unfolding of_parts
of_parts-WellFormed (m ∷ []) (s ∷ []) t h = of_headers-WellFormed m s.records s.headers t h
of_parts-WellFormed [] ss t h = absurd (cc h)
of_parts-WellFormed (a ∷ b ∷ ms) ss t h = absurd (cc h)
of_parts-WellFormed (a ∷ []) [] t h = absurd (cc h)
of_parts-WellFormed (a ∷ []) (b ∷ c ∷ ss) t h = absurd (cc h)

of_document-WellFormed :
    (document : Option TransmissionXml) (t : Transmission)
    → of_document document ≡ some t
    → WellFormed t
unfolding of_document
of_document-WellFormed none t h = absurd (cc h)
of_document-WellFormed (some d) t h = of_parts-WellFormed d.manifests d.submissions t h

-- A transmission that is decoded names its firm, its client and a UTID of the form asked for, is of
-- the tax year 2025, and has 1 to 100 records, each with an ID that no other of them has.
pub decode_transmission-WellFormed :
    (xml : RequestXml) (payload : Bytes) (t : Transmission)
    → decode_transmission xml payload ≡ some t
    → WellFormed t
unfolding decode_transmission
decode_transmission-WellFormed xml payload t h =
    of_document-WellFormed (xml.transmission payload) t (ground (arith, h))
