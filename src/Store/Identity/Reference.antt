-- ===== src/Store/Identity/Reference.antt =====
-- postgres/internal/store/identity.go `batchIdentity`, and `filingKeyString` of
-- postgres/internal/store/determination.go.
use soraban.Shared.{
  ℕ, zero, suc, ◌+◌, ◌-◌, ◌/◌, ◌%◌, ltb, String, str_append, as_text, List, [], ◌∷◌, ◌++◌, map,
  if◌then◌else◌,
}
use soraban.Lifecycle.{Bytes}
use soraban.Store.Identity.{hash_sequence}
use soraban.Store.Identity.Money.{decimal}

unfoldable pub hex_digit : ℕ → ℕ
hex_digit d = if ltb d 10 then b'0' + d else b'a' + (d - 10)

-- `hex.EncodeToString`, and `%x`.
unfoldable pub hex : Bytes → Bytes
hex [] = []
hex (b ∷ bs) = hex_digit (b / 16) ∷ hex_digit (b % 16) ∷ hex bs

unfoldable pub filing_key_string : Bytes → String
filing_key_string key = as_text (hex key)

-- `bytes[start : start+n]`.
unfoldable pub slice : ℕ → ℕ → Bytes → Bytes
slice zero zero bs = []
slice start n [] = []
slice zero (suc n) (b ∷ bs) = b ∷ slice zero n bs
slice (suc start) n (b ∷ bs) = slice start n bs

-- `bytes[index] = f(bytes[index])`.
unfoldable pub set_at : ℕ → (ℕ → ℕ) → Bytes → Bytes
set_at index f [] = []
set_at zero f (b ∷ bs) = f b ∷ bs
set_at (suc index) f (b ∷ bs) = b ∷ set_at index f bs

-- The version and the variant of a UUID; `uuidBytes` is a slice of `digest`, so they are set there.
unfoldable pub stamp : Bytes → Bytes
stamp digest = set_at 8 (λ b. b % 64 + 128) (set_at 6 (λ b. b % 16 + 64) digest)

unfoldable pub uuid : Bytes → Bytes
uuid bytes =
    hex (slice 0 4 bytes)
    ++ ((b'-' ∷ hex (slice 4 2 bytes))
        ++ ((b'-' ∷ hex (slice 6 2 bytes))
            ++ ((b'-' ∷ hex (slice 8 2 bytes)) ++ (b'-' ∷ hex (slice 10 6 bytes)))))

unfoldable pub utid_of : Bytes → String → String
utid_of bytes firm = str_append (as_text (uuid bytes)) (str_append ":IRIS:" (str_append firm "::A"))

-- `utf8` are the bytes of a text.
module _ (sha256 : Bytes → Bytes) (utf8 : String → Bytes) where
  unfoldable pub batch_digest : String → String → ℕ → List Bytes → Bytes
  batch_digest firm client tax_year keys =
      hash_sequence sha256
        (utf8 "batch-ref-v1" ∷ utf8 firm ∷ utf8 client ∷ decimal tax_year ∷ map hex keys)

  unfoldable pub batch_identity : String → String → ℕ → List Bytes → Bytes × String
  batch_identity firm client tax_year keys =
      let digest = stamp (batch_digest firm client tax_year keys) in (digest, utid_of digest firm)
