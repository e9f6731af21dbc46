-- ===== src/Store/Plan.antt =====
-- postgres/internal/store/filing.go: `PlanBatches`.
pub mod Groups
pub mod Writing
use soraban.Shared.{
  ℕ, suc, zero, ◌+◌, ◌==◌, Bool, true, false, not, ◌&&◌, ◌||◌, ltb, String, str_eq, Option, none,
  some, List, [], ◌∷◌, ◌++◌, map, if◌then◌else◌, length, count_where, find_where, update_where,
  bytes_eq,
}
use soraban.Lifecycle.{Error, invariant, conflict, message, Result, ok, err, Bytes}
use soraban.Shared.Int.{ℤ}
use soraban.Store.Tables.{Filing, FilingState, ready, batched, Batch, planned, BatchFiling, Db}

-- `ORDER BY client_id, filing_key`; `text_before` is the order of the database's collation.
module _ (text_before : String → String → Bool) where
  bytes_before : Bytes → Bytes → Bool
  bytes_before [] [] = false
  bytes_before [] (y ∷ ys) = true
  bytes_before (x ∷ xs) [] = false
  bytes_before (x ∷ xs) (y ∷ ys) = let rest = bytes_before xs ys in ltb x y || (x == y && rest)

  comes_before : Filing → Filing → Bool
  unfolding bytes_before
  comes_before f g =
      text_before f.client_id g.client_id
      || (str_eq f.client_id g.client_id && bytes_before f.filing_key g.filing_key)

  insert : Filing → List Filing → List Filing
  unfolding comes_before
  insert f [] = f ∷ []
  insert f (g ∷ gs) = let rest = insert f gs in if comes_before g f then g ∷ rest else f ∷ g ∷ gs

  unfoldable pub ordered : List Filing → List Filing
  unfolding insert
  ordered [] = []
  ordered (f ∷ fs) = insert f (ordered fs)

-- The filings after the first that are in its batch, and the others: of the same client, and
-- `room` at most.
unfoldable pub split_group : ℕ → String → List Filing → List Filing × List Filing
split_group zero client fs = ([], fs)
split_group (suc room) client [] = ([], [])
split_group (suc room) client (f ∷ fs) =
    let rest = split_group room client fs in
    if str_eq f.client_id client then (f ∷ rest.0, rest.1) else ([], f ∷ fs)

-- The loop over `start`, by the filings that are left.
unfoldable pub groups_within : ℕ → List Filing → List (List Filing)
groups_within zero fs = []
groups_within (suc fuel) [] = []
groups_within (suc fuel) (f ∷ fs) =
    let (mine, others) = split_group 99 f.client_id fs in (f ∷ mine) ∷ groups_within fuel others

unfoldable pub groups : List Filing → List (List Filing)
groups fs = groups_within (length fs) fs
