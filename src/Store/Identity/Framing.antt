-- ===== src/Store/Identity/Framing.antt =====
-- postgres/internal/store/identity.go, `hashSequence`: what is hashed tells the values apart.
use soraban.Shared.{ℕ, ◌/◌, ◌%◌, ◌<◌, List, [], ◌∷◌, ◌++◌, ◌≡◌, refl, arith, All, length}
use soraban.Lifecycle.{Bytes}
use soraban.Store.Identity.{put_uint32, frames}

-- A length that four bytes can hold.
abbrev pub Short : Bytes → Type 0
Short v = length v < 4294967296

append_cancel :
    (xs ys us vs : Bytes) → length xs ≡ length ys → xs ++ us ≡ ys ++ vs → (xs ≡ ys) × (us ≡ vs)
append_cancel [] [] us vs l h = (refl, h)
append_cancel [] (y ∷ ys) us vs l h = absurd (omega (arith, l))
append_cancel (x ∷ xs) [] us vs l h = absurd (omega (arith, l))
append_cancel (x ∷ xs) (y ∷ ys) us vs l h =
    let (a, b) = append_cancel xs ys us vs (omega (arith, l)) (cc h) in
    let same : x ≡ y = cc h in (cc (same, a), b)

put_uint32-cancel :
    (m n : ℕ) (us vs : Bytes)
    → m < 4294967296
    → n < 4294967296
    → put_uint32 m ++ us ≡ put_uint32 n ++ vs
    → (m ≡ n) × (us ≡ vs)
unfolding put_uint32
put_uint32-cancel m n us vs p q h =
    let a : m / 16777216 % 256 ≡ n / 16777216 % 256 = cc h in
    let b : m / 65536 % 256 ≡ n / 65536 % 256 = cc h in
    let c : m / 256 % 256 ≡ n / 256 % 256 = cc h in
    let d : m % 256 ≡ n % 256 = cc h in (omega (arith, a, b, c, d, p, q), cc h)

-- Two sequences of values, each shorter than 2 ^ 32 bytes, for which hashSequence writes the same
-- bytes to its hash are the same sequence.
pub frames-injective :
    (xs ys : List Bytes) → All Short xs → All Short ys → frames xs ≡ frames ys → xs ≡ ys
unfolding frames put_uint32
frames-injective [] [] a b h = refl
frames-injective [] (y ∷ ys) a b h = absurd (cc h)
frames-injective (x ∷ xs) [] a b h = absurd (cc h)
frames-injective (x ∷ xs) (y ∷ ys) a b h =
    let (size, rest) =
      put_uint32-cancel (length x) (length y) (x ++ frames xs) (y ++ frames ys) a.0 b.0 h in
    let (same, others) = append_cancel x y (frames xs) (frames ys) size rest in
    let tails = frames-injective xs ys a.1 b.1 others in cc (same, tails)
