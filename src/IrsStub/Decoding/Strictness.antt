-- ===== src/IrsStub/Decoding/Strictness.antt =====
-- irs/internal/stub/server.go `validateXMLElements` and service/internal/irsclient/client.go
-- `decodeStrict`: the two sides of the protocol take the same documents.
use soraban.Shared.{
  ℕ, suc, ◌-◌, Bool, true, false, String, List, [], ◌∷◌, ◌≡◌, refl, arith, if◌then◌else◌,
}
use soraban.IrsClient.{
  Token, start_element, end_element, char_data, other_token, is_strict, is_allowed,
}
use soraban.IrsStub.Decoding.{valid_elements}

-- After a second root the client takes nothing.
is_strict_second :
    (root : String) (allowed : List String) (depth roots : ℕ) (ts : List Token)
    → is_strict root allowed depth (suc (suc roots)) ts ≡ false
unfolding is_strict
is_strict_second root allowed depth roots [] = ground arith
is_strict_second root allowed depth roots (start_element name plain ∷ ts) = ground (
  arith,
  is_strict_second root allowed (suc depth) roots ts,
  is_strict_second root allowed (suc depth) (suc roots) ts,
)
is_strict_second root allowed depth roots (end_element ∷ ts) =
    is_strict_second root allowed (depth - 1) roots ts
is_strict_second root allowed depth roots (char_data text ∷ ts) =
    ground (arith, is_strict_second root allowed depth roots ts)
is_strict_second root allowed depth roots (other_token ∷ ts) =
    is_strict_second root allowed depth roots ts

abbrev roots_of : Bool → ℕ
roots_of seen = if seen then 1 else 0

same_elements :
    (root : String) (allowed : List String) (depth : ℕ) (seen : Bool) (ts : List Token)
    → valid_elements root allowed depth seen ts ≡ is_strict root allowed depth (roots_of seen) ts
unfolding valid_elements is_strict is_allowed
same_elements root allowed depth true [] = refl
same_elements root allowed depth false [] = refl
same_elements root allowed depth true (start_element name plain ∷ ts) = ground (
  arith,
  same_elements root allowed (suc depth) true ts,
  is_strict_second root allowed (suc depth) 0 ts,
)
same_elements root allowed depth false (start_element name plain ∷ ts) = ground (
  arith,
  same_elements root allowed (suc depth) true ts,
  same_elements root allowed (suc depth) false ts,
)
same_elements root allowed depth seen (end_element ∷ ts) =
    same_elements root allowed (depth - 1) seen ts
same_elements root allowed depth seen (char_data text ∷ ts) =
    ground (arith, same_elements root allowed depth seen ts)
same_elements root allowed depth seen (other_token ∷ ts) = same_elements root allowed depth seen ts

-- The stub's test of the elements of a document and the client's take the same token sequences.
pub valid_elements-is_strict :
    (root : String) (allowed : List String) (ts : List Token)
    → valid_elements root allowed 0 false ts ≡ is_strict root allowed 0 0 ts
valid_elements-is_strict root allowed ts = same_elements root allowed 0 false ts
