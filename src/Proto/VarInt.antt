-- ===== src/Proto/VarInt.antt =====
-- toVarInt (libcluon/src/ToProtoVisitor.cpp) and fromVarInt (libcluon/src/FromProtoVisitor.cpp).
pub mod Bytes
pub mod Progress
use libcluon.Prelude.{ℕ, zero, suc, ◌+◌, ◌-◌, ◌*◌, ◌/◌, ◌%◌, ◌^◌}
use libcluon.Prelude.{false, List, [], ◌∷◌, ◌++◌, ltb, ◌==◌, if◌then◌else◌}
use libcluon.Prelude.{bit_and, bit_or}
use libcluon.Stream.{Stream, stream}

-- (static_cast<uint8_t>(v & 0x7f)) | 0x80, and the final (static_cast<uint8_t>(v)) & 0x7f
abbrev pub more_byte : ℕ → ℕ
more_byte v = bit_or (bit_and v 0x7f % 256) 0x80

abbrev pub last_byte : ℕ → ℕ
last_byte v = bit_and (v % 256) 0x7f

-- The loop of toVarInt with the rounds that may still come: the stream and the count of bytes. A
-- uint64_t takes at most nine rounds.
to_var_int_loop : ℕ → List ℕ → ℕ → ℕ → List ℕ × ℕ
to_var_int_loop zero out v size = (out ++ (last_byte v ∷ []), size)
to_var_int_loop (suc rounds) out v size =
    let next = to_var_int_loop rounds (out ++ (more_byte v ∷ [])) (v / 2 ^ 7) (size + 1) in
    if ltb 0x7f v then next else (out ++ (last_byte v ∷ []), size)

unfoldable pub to_var_int : List ℕ → ℕ → List ℕ × ℕ
unfolding to_var_int_loop
to_var_int out v = to_var_int_loop 9 out v 1

-- x << k at 64 bits. C++ leaves shifts by 64 and more undefined; they come up only in numbers of
-- more than ten bytes, which Proto/Decode/Returns.antt tells from the others.
abbrev shl64 : ℕ → ℕ → ℕ
shl64 x k = x * 2 ^ k % 2 ^ 64

-- What in.get() returns at the end of the stream, EOF, as a uint64_t.
abbrev eof64 : ℕ
eof64 = 2 ^ 64 - 1

-- value |= (C & MASK) << (SHIFT * size)
abbrev add_group : ℕ → ℕ → ℕ → ℕ
add_group value c size = bit_or value (shl64 (bit_and c 0x7f) (7 * size))

-- The loop of fromVarInt from a stream that is good: the value, the bytes taken and the stream.
-- Getting a byte from the empty rest gives EOF, whose top bit is set, and ends the loop.
from_var_int_loop : List ℕ → ℕ → ℕ → ℕ × ℕ × Stream
from_var_int_loop [] value size =
    (add_group value eof64 size, size + 1, record { rest = []; good = false })
from_var_int_loop (c ∷ rest) value size =
    let more = from_var_int_loop rest (add_group value c size) (size + 1) in
    if bit_and c 0x80 == 0 then (add_group value c size, size + 1, stream rest) else more

unfoldable pub from_var_int : Stream → ℕ × ℕ × Stream
unfolding from_var_int_loop
from_var_int s = if s.good then from_var_int_loop s.rest 0 0 else (0, 0, s)
