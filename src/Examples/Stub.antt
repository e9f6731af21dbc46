-- ===== src/Examples/Stub.antt =====
-- One transmission, sent to the stub.
use soraban.Shared.{ℕ, ltb, ◌+◌, ◌*◌, true, false, String, some, List, [], ◌∷◌, ◌≡◌, refl, as_text}
use soraban.Shared.Int.{pos}
use soraban.IrsClient.{Token, start_element, end_element, char_data, is_strict}
use soraban.Store.Identity.Reference.{hex, hex_digit}
use soraban.IrsStub.Money.{is_digit}
use soraban.IrsStub.Model.{
  Float, FilingRecord, Transmission, Submission, Store, received, fail_after_record, new_store,
  find_by_utid, original_key, any_known, is_nine_digits, starts_with_000, rejection, new_opaque_id,
  result_for,
}
use soraban.IrsStub.Intake.{
  Percentages, Draws, results_for, stored, classify_intake_fault, availability, record_transmission,
}
use soraban.IrsStub.Intake.Registry.{
  Consistent, stay, step, store-Consistent, Recorded, record_transmission-Recorded,
}
use soraban.IrsStub.Decoding.{valid_elements}
use soraban.IrsStub.Decoding.Strictness.{valid_elements-is_strict}

-- Draws and percentages are whole numbers of percent.
abbrev pub percent : Float
percent = record {
  Number = ℕ;
  less = ltb;
  plus = λ a b. a + b;
  times_100 = λ a. a;
  nanoseconds = λ a. a * 200000000;
}

-- Half of the intakes are recorded and then fail.
abbrev pub config : Percentages percent
config = record { fail_before_record = 10; fail_after_record = 50; never_ack = 10 }

abbrev pub draws : Draws percent
draws = record {
  fault = 20;
  never = 50;
  delay = 50;
  ids = (17 ∷ []) ∷ (171 ∷ []) ∷ (18 ∷ []) ∷ [];
  now = 1000;
}

abbrev pub utid : String
utid = "00000000-0000-4000-8000-000000000000:IRIS:F001::A"

abbrev pub good : FilingRecord
good = record {
  record_id = "k1";
  recipient_name = "Ann";
  recipient_tin = "123456789";
  amount_cents = pos 60000;
  withholding_cents = pos 0;
}

abbrev bad : FilingRecord
bad = record {
  record_id = "k2";
  recipient_name = "Bob";
  recipient_tin = "000456789";
  amount_cents = pos 70000;
  withholding_cents = pos 0;
}

abbrev pub input : Transmission
input = record {
  firm_id = "F001";
  client_id = "C1";
  tax_year = "2025";
  utid = utid;
  submission_id = "SUB-1";
  records = good ∷ bad ∷ [];
}

abbrev pub submission : Submission
submission = record {
  receipt_id = "rcpt_11";
  utid = utid;
  firm_id = "F001";
  client_id = "C1";
  tax_year = "2025";
  submission_id = "SUB-1";
  available_at = some 20000001000;
  results =
      record {
        record_id = "k1";
        status = "Accepted";
        irs_record_id = "irsrec_ab";
        error_reason = "";
      }
      ∷ record {
        record_id = "k2";
        status = "Rejected";
        irs_record_id = "";
        error_reason = "TIN_INVALID";
      }
      ∷ [];
}

abbrev pub store : Store
store = record {
  by_firm_and_utid = ("F001", utid, submission) ∷ [];
  by_receipt_id = ("rcpt_11", submission) ∷ [];
  original_records = original_key input good ∷ original_key input bad ∷ [];
  generated_ids = "irsrec_ab" ∷ "rcpt_11" ∷ [];
}

-- Recorded, though the answer will be a failure.
recorded :
    record_transmission percent config draws input new_store
    ≡ some (received "rcpt_11" fail_after_record, store)
unfolding record_transmission find_by_utid any_known original_key classify_intake_fault new_store
    new_opaque_id results_for result_for rejection is_nine_digits is_digit starts_with_000 stored
    availability hex hex_digit as_text
recorded = refl

store-Consistent_example : Consistent store
store-Consistent_example =
    store-Consistent (step config draws input (received "rcpt_11" fail_after_record) recorded stay)

record_transmission-Recorded_example : Recorded percent input "rcpt_11" store
record_transmission-Recorded_example =
    record_transmission-Recorded percent config draws input "rcpt_11" fail_after_record new_store
      store store stay recorded stay

abbrev tokens : List Token
tokens =
    start_element "IRTransmission" true
    ∷ char_data " "
    ∷ start_element "IRSubmission1Grp" true
    ∷ end_element
    ∷ end_element
    ∷ []

valid_elements-is_strict_example :
    valid_elements "IRTransmission" ("IRTransmission" ∷ "IRSubmission1Grp" ∷ []) 0 false tokens
    ≡ is_strict "IRTransmission" ("IRTransmission" ∷ "IRSubmission1Grp" ∷ []) 0 0 tokens
valid_elements-is_strict_example =
    valid_elements-is_strict "IRTransmission" ("IRTransmission" ∷ "IRSubmission1Grp" ∷ []) tokens
