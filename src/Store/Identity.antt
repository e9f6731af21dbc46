-- ===== src/Store/Identity.antt =====
-- postgres/internal/store/identity.go: `hashSequence` and `filingKey`.
pub mod Framing
pub mod Money
pub mod Reference
pub mod Xml
use soraban.Shared.{ℕ, ◌/◌, ◌%◌, String, List, [], ◌∷◌, ◌++◌, length}
use soraban.Lifecycle.{Bytes}

-- `binary.BigEndian.PutUint32(length, uint32(n))`.
unfoldable pub put_uint32 : ℕ → Bytes
put_uint32 n = n / 16777216 % 256 ∷ n / 65536 % 256 ∷ n / 256 % 256 ∷ n % 256 ∷ []

-- What is written to the hash: each value after its length.
unfoldable pub frames : List Bytes → Bytes
frames [] = []
frames (v ∷ vs) = put_uint32 (length v) ++ (v ++ frames vs)

module _ (sha256 : Bytes → Bytes) where
  unfoldable pub hash_sequence : List Bytes → Bytes
  hash_sequence values = sha256 (frames values)

  -- `utf8` are the bytes of a text, `decimal` is fmt's `%d`.
  unfoldable pub filing_key : (String → Bytes) → (ℕ → Bytes) → String → String → ℕ → String → Bytes
  filing_key utf8 decimal firm client tax_year vendor = hash_sequence (
      utf8 "filing-key-v1"
      ∷ utf8 firm
      ∷ utf8 client
      ∷ decimal tax_year
      ∷ utf8 "1099-NEC"
      ∷ utf8 vendor
      ∷ utf8 "0"
      ∷ [])
