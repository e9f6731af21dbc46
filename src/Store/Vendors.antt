-- ===== src/Store/Vendors.antt =====
-- The SQL on the names of vendors: their identity in postgres/internal/store/import.go, and what
-- postgres/internal/store/determination.go reads from it. `is_white` is the class `[[:space:]]` of
-- PostgreSQL.
use Prim.Native.Char.{code}
use soraban.Shared.{
  ℕ, zero, suc, ◌==◌, Bool, true, false, not, ◌&&◌, ◌||◌, leb, String, str_eq, str_append, codes,
  all_of, lower_letter, Option, none, some, List, [], ◌∷◌, length, if◌then◌else◌,
}
use soraban.Shared.Int.{ℤ, is_positive}

-- `regexp_replace(s, '[ -]', '', 'g')`.
unfoldable pub without_separators : String → String
without_separators String.[] = String.[]
without_separators (String.◌∷◌ c s) =
    let rest = without_separators s in
    if code c == b' ' || code c == b'-' then rest else String.◌∷◌ c rest

trim_left : String → String
trim_left String.[] = String.[]
trim_left (String.◌∷◌ c s) =
    let rest = trim_left s in if code c == b' ' then rest else String.◌∷◌ c s

trim_right : String → String
trim_right String.[] = String.[]
trim_right (String.◌∷◌ c s) =
    let rest = trim_right s in if code c == b' ' && str_eq rest "" then "" else String.◌∷◌ c rest

-- `btrim(s)`.
unfoldable pub btrim : String → String
unfolding trim_left trim_right
btrim s = trim_right (trim_left s)

unfoldable pub lowered : String → String
lowered String.[] = String.[]
lowered (String.◌∷◌ c s) = String.◌∷◌ (lower_letter c) (lowered s)

-- `regexp_replace(s, '[[:space:]]+', ' ', 'g')`, after a white character where `after`.
unfoldable pub collapsed : (ℕ → Bool) → Bool → String → String
collapsed is_white after String.[] = String.[]
collapsed is_white after (String.◌∷◌ c s) =
    let rest = collapsed is_white true s in
    let other = collapsed is_white false s in
    if is_white (code c) then if after then rest else str_append " " rest else String.◌∷◌ c other

-- `s ~ '^[0-9]{9}$'`.
unfoldable pub is_tin : String → Bool
is_tin s = length (codes s) == 9 && all_of (λ c. leb b'0' c && leb c b'9') (codes s)

unfoldable pub vendor_identity : (ℕ → Bool) → String → String → String
vendor_identity is_white name tin =
    if str_eq (btrim tin) ""
    then str_append "missing-tin:" (lowered (collapsed is_white false (btrim name)))
    else if is_tin (without_separators tin)
    then str_append "tin:" (without_separators tin)
    else str_append "malformed-tin:" (btrim tin)

-- `s LIKE 'start%'`.
unfoldable pub is_like : List ℕ → List ℕ → Bool
is_like [] cs = true
is_like (p ∷ ps) [] = false
is_like (p ∷ ps) (c ∷ cs) = let rest = is_like ps cs in p == c && rest

-- `substring(s FROM n + 1)`.
unfoldable pub after_characters : ℕ → String → String
after_characters zero s = s
after_characters (suc n) String.[] = String.[]
after_characters (suc n) (String.◌∷◌ c s) = after_characters n s

unfoldable pub tin_of : String → Option String
tin_of identity =
    if is_like (codes "tin:") (codes identity) then some (after_characters 4 identity) else none

unfoldable pub starts_000 : Option String → Bool
starts_000 none = false
starts_000 (some tin) = is_like (codes "000") (codes tin)

-- The `preflight_reason` of a candidate; its state is ready where there is none.
unfoldable pub preflight_reason : String → Option String → ℤ → Option String
unfolding starts_000
preflight_reason identity tin reportable =
    if is_like (codes "missing-tin:") (codes identity)
    then some "TIN_MISSING"
    else if is_like (codes "malformed-tin:") (codes identity)
    then some "TIN_MALFORMED"
    else if starts_000 tin
    then some "TIN_INVALID"
    else if not (is_positive reportable)
    then some "AMOUNT_INVALID"
    else none
