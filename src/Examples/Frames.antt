-- ===== src/Examples/Frames.antt =====
-- Two values that a hash without lengths would take for one.
use soraban.Shared.{List, [], ◌∷◌, ◌≡◌, refl, arith}
use soraban.Lifecycle.{Bytes}
use soraban.Store.Identity.{frames, put_uint32}
use soraban.Store.Identity.Framing.{frames-injective}

abbrev values : List Bytes
values = (70 ∷ 49 ∷ []) ∷ (67 ∷ []) ∷ []

frames-injective_example : values ≡ values
frames-injective_example =
    frames-injective values values (omega arith, (omega arith, tt)) (omega arith, (omega arith, tt))
      refl

lengths_tell : frames ((70 ∷ []) ∷ []) ≡ 0 ∷ 0 ∷ 0 ∷ 1 ∷ 70 ∷ []
unfolding frames put_uint32
lengths_tell = refl
