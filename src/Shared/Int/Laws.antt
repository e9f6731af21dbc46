-- ===== src/Shared/Int/Laws.antt =====
-- Sums of integers, and int64 sums.
use Prim.Native.Nat.{ℕ, ◌+◌, ◌-◌, ◌%◌, ◌≤◌, ◌<◌}
use mathlib.Core.Path.{◌≡◌, refl, ap, sym, ◌∙◌}
use native.Mathlib.Omega.{arith}
use soraban.Shared.Tests.{ltb, if◌then◌else◌}
use soraban.Shared.Int.{ℤ, pos, negsuc, pos_part, neg_part, sub_ℕ, ◌+ℤ◌, wrap_int64}

pub sub_ℕ-cancel : (a b c d : ℕ) → a + d ≡ c + b → sub_ℕ a b ≡ sub_ℕ c d
sub_ℕ-cancel a b c d h = ground (arith, h)

pub add_comm : (a b : ℤ) → a +ℤ b ≡ b +ℤ a
unfolding ◌+ℤ◌
add_comm a b = sub_ℕ-cancel _ _ _ _ (omega arith)

parts : (a b : ℕ) → pos_part (sub_ℕ a b) + b ≡ a + neg_part (sub_ℕ a b)
parts a b = ground arith

pub add_assoc : (a b c : ℤ) → (a +ℤ b) +ℤ c ≡ a +ℤ (b +ℤ c)
unfolding ◌+ℤ◌
add_assoc a b c =
    let p = parts (pos_part a + pos_part b) (neg_part a + neg_part b) in
    let q = parts (pos_part b + pos_part c) (neg_part b + neg_part c) in
    sub_ℕ-cancel _ _ _ _ (omega (arith, p, q))

abbrev u64 : ℕ
u64 = 18446744073709551616

-- The residue of x - y.
residue : ℕ → ℕ → ℕ
residue x y = (x + (u64 - y % u64)) % u64

of_word : ℕ → ℤ
of_word word = if ltb word 9223372036854775808 then pos word else negsuc (u64 - word - 1)

wrap_int64-residue : (z : ℤ) → wrap_int64 z ≡ of_word (residue (pos_part z) (neg_part z))
unfolding wrap_int64 of_word residue
wrap_int64-residue z = refl

residue_add :
    (x y x' y' c d : ℕ)
    → residue x y ≡ residue x' y'
    → residue (x + c) (y + d) ≡ residue (x' + c) (y' + d)
unfolding residue
residue_add x y x' y' c d h = omega (arith, h)

residue-sub_ℕ : (x y : ℕ) → residue (pos_part (sub_ℕ x y)) (neg_part (sub_ℕ x y)) ≡ residue x y
unfolding residue
residue-sub_ℕ x y = ground arith

residue-of_word :
    (word : ℕ) → word < u64 → residue (pos_part (of_word word)) (neg_part (of_word word)) ≡ word
unfolding residue of_word
residue-of_word word h = ground (arith, h)

residue-lt : (x y : ℕ) → residue x y < u64
unfolding residue
residue-lt x y = omega arith

-- An int64 sum may wrap at each step or once at the end.
pub wrap_int64-add : (a b : ℤ) → wrap_int64 (wrap_int64 a +ℤ b) ≡ wrap_int64 (a +ℤ b)
unfolding ◌+ℤ◌
wrap_int64-add a b =
    let word = residue (pos_part a) (neg_part a) in
    let same : residue (pos_part (wrap_int64 a)) (neg_part (wrap_int64 a)) ≡ word =
      rw (wrap_int64-residue a) (residue-of_word word (residue-lt (pos_part a) (neg_part a))) in
    rw (wrap_int64-residue (wrap_int64 a +ℤ b), wrap_int64-residue (a +ℤ b))
      (ap of_word (
        residue-sub_ℕ (pos_part (wrap_int64 a) + pos_part b) (neg_part (wrap_int64 a) + neg_part b)
        ∙ residue_add _ _ _ _ (pos_part b) (neg_part b) same
        ∙ sym (residue-sub_ℕ (pos_part a + pos_part b) (neg_part a + neg_part b))))

pub wrap_int64-fits :
    (z : ℤ) → pos_part z < 9223372036854775808 → neg_part z ≤ 9223372036854775808 → wrap_int64 z ≡ z
unfolding wrap_int64
wrap_int64-fits (pos n) h k = ground (arith, h)
wrap_int64-fits (negsuc n) h k = ground (arith, k)

pub add_zero : (z : ℤ) → pos 0 +ℤ z ≡ z
unfolding ◌+ℤ◌
add_zero (pos n) = ground arith
add_zero (negsuc n) = ground arith
