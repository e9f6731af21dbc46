-- ===== src/Examples/Filed.antt =====
-- A batch of one filing, planned and read by the IRS.
use soraban.Shared.{
  ℕ, Bool, true, false, none, arith, ◌≢◌, ap, String, codes, Option, some, [], ◌∷◌, ◌≡◌, refl,
}
use soraban.Shared.Int.{pos}
use soraban.Lifecycle.{Bytes}
use soraban.Store.Tables.{Filing, ready}
use soraban.Store.Plan.Writing.{Planning, plan_groups}
use soraban.Store.Identity.Xml.{XmlTransmission, identities}
use soraban.IrsStub.Decoding.{RequestXml}
use soraban.IrsStub.Decoding.Utid.{Octets}
use soraban.IrsStub.Decoding.Marshalled.{tokens_of, document_of}
use soraban.IrsStub.Decoding.Filed.{planned_xml, Fileable}
use soraban.IrsStub.Decoding.Filed.Batch.{FirstFiled, plan_groups-Filed}
use soraban.Examples.Reports.{filing}

abbrev marshal : XmlTransmission → Option Bytes
marshal _ = some (60 ∷ [])

abbrev before : String → String → Bool
before _ _ = false

abbrev sixteen : Bytes → Bytes
sixteen _ = 1 ∷ 2 ∷ 3 ∷ 4 ∷ 5 ∷ 6 ∷ 7 ∷ 8 ∷ 9 ∷ 10 ∷ 11 ∷ 12 ∷ 13 ∷ 14 ∷ 15 ∷ 255 ∷ []

abbrev first : Filing
first = record (filing 1 "C1" ready) { filing_key = 171 ∷ 5 ∷ [] }

abbrev second : Filing
second = record (filing 2 "C1" ready) { filing_key = 171 ∷ 6 ∷ []; reportable_cents = pos 123405 }

abbrev marshalled : XmlTransmission
marshalled = planned_xml marshal sixteen codes before "F001" first (second ∷ [])

-- A decoder that reads every payload as this batch.
abbrev reads_it : RequestXml
reads_it = record {
  tokens = λ _. (tokens_of marshalled, true);
  transmission = λ _. some (document_of marshalled);
  status_request = λ _. none;
}

abbrev OneBatch : Type 0
OneBatch =
    (plan : Planning) × ((plan_groups sixteen (identities marshal sixteen codes) before "F001"
          ((first ∷ second ∷ []) ∷ [])
        ≡ some plan)
      × FirstFiled marshal sixteen codes before reads_it "F001" first (second ∷ []) plan)

octets : (bs : Bytes) → Octets (sixteen bs)
octets bs = (
  omega arith,
  (
    omega arith,
    (
      omega arith,
      (
        omega arith,
        (
          omega arith,
          (
            omega arith,
            (
              omega arith,
              (
                omega arith,
                (
                  omega arith,
                  (
                    omega arith,
                    (
                      omega arith,
                      (omega arith, (omega arith, (omega arith, (omega arith, (omega arith, tt))))),
                    ),
                  ),
                ),
              ),
            ),
          ),
        ),
      ),
    ),
  ),
)

second_byte : Bytes → ℕ
second_byte (_ ∷ b ∷ _) = b
second_byte _ = 0

other_key : first.filing_key ≢ second.filing_key
unfolding second_byte
other_key e = let same : ◌≡◌ {A = ℕ} 5 6 = ap second_byte e in absurd (omega (arith, same))

fileable : Fileable marshal sixteen codes before "F001" first (second ∷ [])
fileable = record {
  has_firm = refl;
  has_client = refl;
  of_2025 = refl;
  at_most_100 = omega arith;
  all_fit = (
    (omega arith, (omega arith, (omega arith, tt)), omega arith, omega arith),
    ((omega arith, (omega arith, (omega arith, tt)), omega arith, omega arith), tt),
  );
  distinct = ((other_key, tt), (tt, tt));
}

plan_groups-Filed_example : OneBatch
unfolding plan_groups
plan_groups-Filed_example =
    plan_groups-Filed marshal sixteen codes before reads_it (λ bs. (omega arith, octets bs)) "F001"
      first (second ∷ []) [] (60 ∷ []) fileable refl (record { tokens = refl; transmission = refl })
      ([], []) refl
