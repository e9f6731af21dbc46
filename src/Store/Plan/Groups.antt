-- ===== src/Store/Plan/Groups.antt =====
-- postgres/internal/store/filing.go, `PlanBatches`: how the filings are grouped.
use soraban.Shared.{
  ℕ, suc, zero, ◌+◌, ◌≤◌, String, str_eq, List, [], ◌∷◌, ◌++◌, ◌≡◌, ◌≢◌, refl, arith, Bool-cases,
  ◌⊎◌, inl, inr, All, length, length-append, flatten, eq_iff, ap, sym, ◌∙◌,
}
use soraban.Store.Tables.{Filing}
use soraban.Store.Plan.{split_group, groups_within, groups}

-- The next filing, if there is one, is of another client.
abbrev StartsOther : String → List Filing → Type 0
StartsOther client [] = Unit
StartsOther client (f ∷ fs) = f.client_id ≢ client

record Split (room : ℕ) (client : String) (fs mine others : List Filing) : Type 0 where
  whole : mine ++ others ≡ fs
  own : All (λ f. f.client_id ≡ client) mine
  fits : length mine ≤ room
  stops : (length mine ≡ room) ⊎ StartsOther client others

split_group-Split :
    (room : ℕ) (client : String) (fs : List Filing)
    → Split room client fs (split_group room client fs).0 (split_group room client fs).1
unfolding split_group
split_group-Split zero client fs = record {
  whole = refl;
  own = tt;
  fits = omega arith;
  stops = inl refl;
}
split_group-Split (suc room) client [] = record {
  whole = refl;
  own = tt;
  fits = omega arith;
  stops = inr tt;
}
split_group-Split (suc room) client (f ∷ fs) = elim (Bool-cases (str_eq f.client_id client)) [
  | inl same ↦
      let rest = split_group-Split room client fs in
      rw same (record {
        whole = ap (λ (gs : List Filing). f ∷ gs) rest.whole;
        own = (ground (arith, eq_iff f.client_id client), rest.own);
        fits = omega (arith, rest.fits);
        stops = elim rest.stops [ inl full ↦ inl (omega (arith, full)) | inr other ↦ inr other ];
      })
  | inr other ↦ rw other (record {
    whole = refl;
    own = tt;
    fits = omega arith;
    stops = inr (λ q. absurd (ground (arith, eq_iff f.client_id client)));
  })
]

-- A batch: 1 to 100 filings of one client.
abbrev pub OneBatch : List Filing → Type 0
OneBatch [] = ⊥
OneBatch (f ∷ fs) = (length (f ∷ fs) ≤ 100) × All (λ g. g.client_id ≡ f.client_id) fs

-- A batch is followed by one that starts with another client, unless it is full.
abbrev pub Cut : List Filing → List (List Filing) → Type 0
Cut g [] = Unit
Cut g ([] ∷ hs) = ⊥
Cut [] ((h ∷ hs) ∷ rest) = ⊥
Cut (g ∷ gs) ((h ∷ hs) ∷ rest) = (length (g ∷ gs) ≡ 100) ⊎ (h.client_id ≢ g.client_id)

abbrev pub Maximal : List (List Filing) → Type 0
Maximal [] = Unit
Maximal (g ∷ gs) = Cut g gs × Maximal gs

groups_within-Cut :
    (fuel : ℕ) (f : Filing) (mine others : List Filing)
    → length others ≤ fuel
    → (length mine ≡ 99) ⊎ StartsOther f.client_id others
    → Cut (f ∷ mine) (groups_within fuel others)
unfolding groups_within
groups_within-Cut zero f mine [] enough stops = tt
groups_within-Cut (suc fuel) f mine [] enough stops = tt
groups_within-Cut zero f mine (o ∷ os) enough stops = absurd (omega (arith, enough))
groups_within-Cut (suc fuel) f mine (o ∷ os) enough (inl full) = inl (omega (arith, full))
groups_within-Cut (suc fuel) f mine (o ∷ os) enough (inr other) = inr other

pub record Grouped (fs : List Filing) (gs : List (List Filing)) : Type 0 where
  pub whole : flatten gs ≡ fs
  pub batches : All OneBatch gs
  pub maximal : Maximal gs

groups_within-Grouped :
    (fuel : ℕ) (fs : List Filing) → length fs ≤ fuel → Grouped fs (groups_within fuel fs)
unfolding groups_within
groups_within-Grouped zero [] h = record { whole = refl; batches = tt; maximal = tt }
groups_within-Grouped zero (f ∷ fs) h = absurd (omega (arith, h))
groups_within-Grouped (suc fuel) [] h = record { whole = refl; batches = tt; maximal = tt }
groups_within-Grouped (suc fuel) (f ∷ fs) h =
    let mine = (split_group 99 f.client_id fs).0 in
    let others = (split_group 99 f.client_id fs).1 in
    let s = split_group-Split 99 f.client_id fs in
    let size : length mine + length others ≡ length fs =
      sym (length-append mine others) ∙ ap length s.whole in
    let enough : length others ≤ fuel = omega (arith, size, h) in
    let rest = groups_within-Grouped fuel others enough in
    record {
      whole =
          ap (λ (gs : List Filing). f ∷ gs)
            (ap (λ (gs : List Filing). mine ++ gs) rest.whole ∙ s.whole);
      batches = ((omega (arith, s.fits), s.own), rest.batches);
      maximal = (groups_within-Cut fuel f mine others enough s.stops, rest.maximal);
    }

-- Grouping filings keeps every filing once and in its place, makes batches of 1 to 100 filings of
-- one client, and ends a batch only where it holds 100 or the next filing is of another client.
pub groups-Grouped : (fs : List Filing) → Grouped fs (groups fs)
unfolding groups
groups-Grouped fs = groups_within-Grouped (length fs) fs (omega arith)
