-- ===== src/Store/Determination/Keys.antt =====
-- postgres/internal/store/determination.go and postgres/internal/store/identity.go: the filing key
-- that SQL computes and the one of `filingKey`.
use mathlib.Core.List.{append_assoc}
use soraban.Shared.{Bool, ℕ, String, ◌≡◌, append_nil}
use soraban.Lifecycle.{Bytes}
use soraban.Store.Identity.{frames, hash_sequence, filing_key}
use soraban.Store.Determination.{sql_filing_key, framed}

-- The filing key that the SQL of DetermineDataset computes is that of filingKey.
pub sql_filing_key-filing_key :
    (sha256 : Bytes → Bytes) (utf8 : String → Bytes) (decimal : ℕ → Bytes)
    (text_before : String → String → Bool) (firm client : String) (tax_year : ℕ) (vendor : String)
    → sql_filing_key sha256 utf8 decimal text_before firm client tax_year vendor
      ≡ filing_key sha256 utf8 decimal firm client tax_year vendor
unfolding sql_filing_key framed filing_key hash_sequence frames
sql_filing_key-filing_key sha256 utf8 decimal text_before firm client tax_year vendor =
    simp (append_assoc, append_nil)
