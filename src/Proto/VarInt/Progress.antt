-- ===== src/Proto/VarInt/Progress.antt =====
-- fromVarInt takes a byte or meets the end of the stream.
use libcluon.Prelude.{
  ℕ, ◌+◌, refl, ap, ◌∙◌, arith, true, false, List, [], ◌∷◌, ◌==◌, Bool-cases, inl, inr, length,
  bit_and,
}
use libcluon.Stream.{Stream, stream, Within, as_record}
use libcluon.Proto.VarInt.{from_var_int, from_var_int_loop, add_group}

from_var_int_loop-Within :
    (bs : List ℕ) (v size : ℕ) → Within (length bs) (from_var_int_loop bs v size).2
unfolding from_var_int_loop
from_var_int_loop-Within [] v size = inl refl
from_var_int_loop-Within (c ∷ bs) v size = elim (Bool-cases (bit_and c 0x80 == 0)) [
  | inl h ↦ inr (ground arith)
  | inr h ↦ elim (from_var_int_loop-Within bs (add_group v c size) (size + 1)) [
    | inl g ↦ inl (rw h g)
    | inr g ↦ inr (ground arith)
  ]
]

pub from_var_int-Within : (bs : List ℕ) → Within (length bs) (from_var_int (stream bs)).2
unfolding from_var_int
from_var_int-Within bs = from_var_int_loop-Within bs 0 0

pub from_var_int_any-Within : (m : ℕ) (s : Stream) → Within m s → Within m (from_var_int s).2
unfolding from_var_int
from_var_int_any-Within m s h = elim (Bool-cases s.good) [
  | inl g ↦ elim h [
    | inl b ↦ inl (ap (λ t. (from_var_int t).2.good) (as_record s false b))
    | inr l ↦ elim (from_var_int_loop-Within s.rest 0 0) [
      | inl e ↦ inl (ap (λ t. (from_var_int t).2.good) (as_record s true g) ∙ e)
      | inr e ↦
          inr (omega (arith, e, l, ap (λ t. length (from_var_int t).2.rest) (as_record s true g)))
    ]
  ]
  | inr g ↦ inl (ap (λ t. (from_var_int t).2.good) (as_record s false g))
]
