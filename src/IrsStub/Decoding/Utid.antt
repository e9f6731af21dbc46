-- ===== src/IrsStub/Decoding/Utid.antt =====
-- postgres/internal/store/identity.go `batchIdentity` and irs/internal/stub/server.go
-- `decodeTransmission`: a planned batch has a UTID of the form that the IRS asks for.
use soraban.Shared.{
  ℕ, zero, suc, ◌+◌, ◌/◌, ◌%◌, ◌<◌, ◌≤◌, Bool, true, String, str_append, as_text, codes,
  codes-as_text, codes-str_append, Ascii, List, [], ◌∷◌, ◌++◌, length, All, ◌≡◌, refl, arith, subst,
  ◌∙◌,
}
use soraban.Lifecycle.{Bytes}
use soraban.Store.Identity.Reference.{
  hex_digit, hex, slice, set_at, stamp, uuid, utid_of, batch_identity, batch_digest,
}
use soraban.Store.Identity.{hash_sequence}
use soraban.IrsStub.Decoding.{
  matches, is_hex, literal, hexes, dashed, uuid_pattern, utid_pattern, is_utid,
}

-- A list of bytes.
abbrev pub Octets : Bytes → Type 0
Octets = All (λ b. b < 256)

matches-append :
    (ps qs : List (ℕ → Bool)) (xs ys : List ℕ)
    → matches ps xs ≡ true
    → matches qs ys ≡ true
    → matches (ps ++ qs) (xs ++ ys) ≡ true
unfolding matches
matches-append [] qs [] ys a b = b
matches-append [] qs (x ∷ xs) ys a b = absurd (cc a)
matches-append (p ∷ ps) qs [] ys a b = absurd (cc a)
matches-append (p ∷ ps) qs (x ∷ xs) ys a b = ground (arith, a, matches-append ps qs xs ys, b)

matches-literal : (cs : List ℕ) → matches (literal cs) cs ≡ true
unfolding matches literal
matches-literal [] = refl
matches-literal (c ∷ cs) = ground (arith, matches-literal cs)

is_hex-hex_digit : (d : ℕ) → d < 16 → is_hex (hex_digit d) ≡ true
unfolding is_hex hex_digit
is_hex-hex_digit d h = ground (arith, h)

twice : ℕ → ℕ
twice zero = 0
twice (suc n) = suc (suc (twice n))

matches-hex : (bs : Bytes) → Octets bs → matches (hexes (twice (length bs))) (hex bs) ≡ true
unfolding hex twice hexes matches
matches-hex [] h = refl
matches-hex (b ∷ bs) h =
    let high = is_hex-hex_digit (b / 16) (omega (arith, h.0)) in
    let low = is_hex-hex_digit (b % 16) (omega (arith)) in rw (high, low) (matches-hex bs h.1)

length-slice : (start n : ℕ) (bs : Bytes) → start + n ≤ length bs → length (slice start n bs) ≡ n
unfolding slice
length-slice zero zero bs h = refl
length-slice zero (suc n) [] h = absurd (omega (arith, h))
length-slice (suc start) n [] h = absurd (omega (arith, h))
length-slice zero (suc n) (b ∷ bs) h = omega (arith, length-slice zero n bs (omega (arith, h)))
length-slice (suc start) n (b ∷ bs) h = length-slice start n bs (omega (arith, h))

slice-Octets : (start n : ℕ) (bs : Bytes) → Octets bs → Octets (slice start n bs)
unfolding slice
slice-Octets zero zero bs h = tt
slice-Octets zero (suc n) [] h = tt
slice-Octets (suc start) n [] h = tt
slice-Octets zero (suc n) (b ∷ bs) h = (h.0, slice-Octets zero n bs h.1)
slice-Octets (suc start) n (b ∷ bs) h = slice-Octets start n bs h.1

length-set_at : (index : ℕ) (f : ℕ → ℕ) (bs : Bytes) → length (set_at index f bs) ≡ length bs
unfolding set_at
length-set_at index f [] = refl
length-set_at zero f (b ∷ bs) = refl
length-set_at (suc index) f (b ∷ bs) = omega (arith, length-set_at index f bs)

set_at-Octets :
    (index : ℕ) (f : ℕ → ℕ)
    → ((b : ℕ) → f b < 256)
    → (bs : Bytes) → Octets bs
    → Octets (set_at index f bs)
unfolding set_at
set_at-Octets index f small [] h = tt
set_at-Octets zero f small (b ∷ bs) h = (small b, h.1)
set_at-Octets (suc index) f small (b ∷ bs) h = (h.0, set_at-Octets index f small bs h.1)

pub length-stamp : (digest : Bytes) → length (stamp digest) ≡ length digest
unfolding stamp
length-stamp digest = length-set_at 8 _ (set_at 6 _ digest) ∙ length-set_at 6 _ digest

pub stamp-Octets : (digest : Bytes) → Octets digest → Octets (stamp digest)
unfolding stamp
stamp-Octets digest h =
    set_at-Octets 8 (λ b. b % 64 + 128) (λ b. omega arith) (set_at 6 (λ b. b % 16 + 64) digest)
      (set_at-Octets 6 (λ b. b % 16 + 64) (λ b. omega arith) digest h)

-- The digits of a slice, at its length.
matches-slice :
    (start n : ℕ) (bs : Bytes)
    → start + n ≤ length bs
    → Octets bs
    → matches (hexes (twice n)) (hex (slice start n bs)) ≡ true
matches-slice start n bs h o =
    subst (λ m. matches (hexes (twice m)) (hex (slice start n bs)) ≡ true)
      (length-slice start n bs h) (matches-hex (slice start n bs) (slice-Octets start n bs o))

pub hex-Ascii : (bs : Bytes) → Octets bs → Ascii (hex bs)
unfolding hex hex_digit
hex-Ascii [] h = tt
hex-Ascii (b ∷ bs) h = (ground (arith, h.0), (ground (arith, h.0), hex-Ascii bs h.1))

pub append-Ascii : (xs ys : Bytes) → Ascii xs → Ascii ys → Ascii (xs ++ ys)
append-Ascii [] ys a b = b
append-Ascii (x ∷ xs) ys a b = (a.0, append-Ascii xs ys a.1 b)

matches-dashed :
    (start n : ℕ) (bs : Bytes)
    → start + n ≤ length bs
    → Octets bs
    → matches (dashed (twice n)) (b'-' ∷ hex (slice start n bs)) ≡ true
unfolding dashed literal matches
matches-dashed start n bs h o = matches-slice start n bs h o

matches-uuid : (bs : Bytes) → 16 ≤ length bs → Octets bs → matches uuid_pattern (uuid bs) ≡ true
unfolding uuid_pattern uuid twice
matches-uuid bs h o =
    matches-append (hexes 8) _ (hex (slice 0 4 bs)) _ (matches-slice 0 4 bs (omega (arith, h)) o) (
      matches-append (dashed 4) _ (b'-' ∷ hex (slice 4 2 bs)) _
        (matches-dashed 4 2 bs (omega (arith, h)) o)
        (matches-append (dashed 4) _ (b'-' ∷ hex (slice 6 2 bs)) _
          (matches-dashed 6 2 bs (omega (arith, h)) o)
          (matches-append (dashed 4) (dashed 12) (b'-' ∷ hex (slice 8 2 bs))
            (b'-' ∷ hex (slice 10 6 bs)) (matches-dashed 8 2 bs (omega (arith, h)) o)
            (matches-dashed 10 6 bs (omega (arith, h)) o))))

uuid-Ascii : (bs : Bytes) → Octets bs → Ascii (uuid bs)
unfolding uuid
uuid-Ascii bs o =
    let digits = λ (start n : ℕ). hex-Ascii (slice start n bs) (slice-Octets start n bs o) in
    append-Ascii (hex (slice 0 4 bs)) _ (digits 0 4) (
      omega arith,
      append-Ascii (hex (slice 4 2 bs)) _ (digits 4 2) (
        omega arith,
        append-Ascii (hex (slice 6 2 bs)) _ (digits 6 2) (
          omega arith,
          append-Ascii (hex (slice 8 2 bs)) (b'-' ∷ hex (slice 10 6 bs)) (digits 8 2)
              (omega arith, digits 10 6),
        ),
      ),
    )

pub utid_of-is_utid :
    (bs : Bytes) (firm : String)
    → 16 ≤ length bs
    → Octets bs
    → is_utid firm (utid_of bs firm) ≡ true
unfolding is_utid utid_of utid_pattern
utid_of-is_utid bs firm h o =
    rw (codes-str_append (as_text (uuid bs)) (str_append ":IRIS:" (str_append firm "::A"))) (
      rw
        (
          codes-as_text (uuid bs) (uuid-Ascii bs o),
          codes-str_append ":IRIS:" (str_append firm "::A"),
          codes-str_append firm "::A",
        )
        (matches-append uuid_pattern _ (uuid bs) _ (matches-uuid bs h o) (
          matches-append (literal (codes ":IRIS:")) _ (codes ":IRIS:") _
            (matches-literal (codes ":IRIS:"))
            (matches-append (literal (codes firm)) _ (codes firm) _ (matches-literal (codes firm))
              (matches-literal (codes "::A"))))))

-- The UTID of a planned batch has the form that the stub asks for of a transmission of its firm,
-- where the hash has at least 16 values, all below 256.
pub batch_identity-is_utid :
    (sha256 : Bytes → Bytes) (utf8 : String → Bytes)
    → ((bs : Bytes) → (16 ≤ length (sha256 bs)) × Octets (sha256 bs))
    → (firm client : String) (tax_year : ℕ) (keys : List Bytes)
    → is_utid firm (batch_identity sha256 utf8 firm client tax_year keys).1 ≡ true
unfolding batch_identity batch_digest hash_sequence
batch_identity-is_utid sha256 utf8 hash firm client tax_year keys =
    let digest = batch_digest sha256 utf8 firm client tax_year keys in
    let (long, octets) = hash _ in
    utid_of-is_utid (stamp digest) firm (omega (arith, length-stamp digest, long))
      (stamp-Octets digest octets)
