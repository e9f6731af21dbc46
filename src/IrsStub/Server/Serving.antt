-- ===== src/IrsStub/Server/Serving.antt =====
-- irs/internal/stub/server.go, `handleIntake`: what it stores, and what it replies.
use soraban.Shared.{
  ℕ, String, str_eq, Option, some, ◌≡◌, refl, ◌⊎◌, inl, inr, Bool-cases, Option-cases,
}
use soraban.Lifecycle.{Bytes}
use soraban.IrsStub.Model.{Float, Transmission, Intake, Store}
use soraban.IrsStub.Intake.{Percentages, Draws, record_transmission}
use soraban.IrsStub.Decoding.{RequestXml, decode_transmission}
use soraban.IrsStub.Decoding.WellFormed.{WellFormed, decode_transmission-WellFormed}
use soraban.IrsStub.Server.{
  Request, Reply, Upload, unsupported, invalid, uploaded, is_authorized, read_multipart_xml,
  intake_reply, refuse, handle_intake, intake_upload, intake_decoded, replied,
}

-- The request uploads this transmission.
abbrev pub Uploads : RequestXml → Request → Transmission → Type 0
Uploads xml request input =
    (bytes : Bytes) × (read_multipart_xml request ≡ uploaded bytes)
    × (decode_transmission xml bytes ≡ some input)

-- A request is refused, or the well-formed transmission that it uploads is passed to `record`.
pub data Handling (xml : RequestXml) (request : Request) (F : Float) (config : Percentages F)
    (draws : Draws F) (store : Store) (reply : Reply) (store' : Store) : Type 0 where
  turned_away :
      (status : ℕ) (code : String)
      → reply ≡ refuse status code
      → store' ≡ store
      → Handling xml request F config draws store reply store'
  passed :
      (input : Transmission) (intake : Intake)
      → Uploads xml request input
      → WellFormed input
      → record_transmission F config draws input store ≡ some (intake, store')
      → reply ≡ intake_reply intake
      → Handling xml request F config draws store reply store'

module _ (xml : RequestXml) (bearer : String) (F : Float) (config : Percentages F) (draws : Draws F)
    (store : Store) (reply : Reply) (store' : Store) (request : Request) where
  refused_with :
      (status : ℕ) (code : String)
      → ◌≡◌ {A = Option (Reply × Store)} (some (refuse status code, store)) (some (reply, store'))
      → Handling xml request F config draws store reply store'
  refused_with status code h = turned_away status code (cc h) (cc h)

  upload-Handling :
      (upload : Upload)
      → read_multipart_xml request ≡ upload
      → intake_upload xml bearer F config draws store upload ≡ some (reply, store')
      → Handling xml request F config draws store reply store'
  unfolding intake_upload intake_decoded replied
  upload-Handling unsupported u h = refused_with 415 "UNSUPPORTED_MEDIA_TYPE" h
  upload-Handling invalid u h = refused_with 400 "INVALID_REQUEST" h
  upload-Handling (uploaded bytes) u h = elim (Option-cases (decode_transmission xml bytes)) [
    | inl e ↦ refused_with 400 "INVALID_REQUEST" (cc (h, e))
    | inr (input, e) ↦ elim (Option-cases (record_transmission F config draws input store)) [
      | inl f ↦ absurd (cc (h, e, f))
      | inr ((intake, next), f) ↦
          let same : next ≡ store' = cc (h, e, f) in
          passed input intake (bytes, u, e) (decode_transmission-WellFormed xml bytes input e)
            (cc (f, same)) (cc (h, e, f))
    ]
  ]

  pub handle_intake-Handling :
      handle_intake xml bearer F config draws store request ≡ some (reply, store')
      → Handling xml request F config draws store reply store'
  unfolding handle_intake
  handle_intake-Handling h = elim (Bool-cases (is_authorized bearer request)) [
    | inr e ↦ refused_with 401 "UNAUTHORIZED" (cc (h, e))
    | inl e ↦ elim (Bool-cases (str_eq request.accept "application/xml")) [
      | inr f ↦ refused_with 415 "UNSUPPORTED_MEDIA_TYPE" (cc (h, e, f))
      | inl f ↦ upload-Handling (read_multipart_xml request) refl (cc (h, e, f))
    ]
  ]

-- Requests to the intake, one after another.
pub data Served (xml : RequestXml) (bearer : String) (F : Float) : Store → Store → Type 1 where
  idle : {store : Store} → Served xml bearer F store store
  served :
      {store store' after : Store} (config : Percentages F) (draws : Draws F) (request : Request)
      (reply : Reply)
      → handle_intake xml bearer F config draws store request ≡ some (reply, store')
      → Served xml bearer F store' after
      → Served xml bearer F store after

-- One of the requests uploads this transmission.
unfoldable pub Sent :
    {xml : RequestXml} {bearer : String} {F : Float} {store after : Store}
    → Transmission
    → Served xml bearer F store after
    → Type 0
Sent input idle = ⊥
Sent {xml} input (served config draws request reply h more) =
    Uploads xml request input ⊎ Sent input more
