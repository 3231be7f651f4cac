-- ===== src/Filter/Tests.antt =====
-- A filter that keeps one of three envelopes.
use libcluon.Prelude.{
  All, ℕ, ◌^◌, ◌≡◌, refl, arith, false, List, [], ◌∷◌, some, inr, codes, drop, same,
}
use libcluon.Prelude.Words.{le_bytes}
use libcluon.Prelude.Decimal.{decimal}
use libcluon.Proto.Encode.{accept, visit, var_int_of, encode_key}
use libcluon.Proto.VarInt.{to_var_int, from_var_int}
use libcluon.Proto.ZigZag.{to_zig_zag}
use libcluon.Envelope.{Envelope, header_length}
use libcluon.Envelope.Outcome.{extract_returns, extract_payload_returns}
use libcluon.Proto.Decode.Returns.{decode_returns, loop_returns, field_returns, payload_returns}
use libcluon.Stream.{read}
use libcluon.Prelude.Words.{from_le}
use libcluon.Filter.{Options, ended, terminated, is_payload, cluon_filter, filter_loop, key, count}
use libcluon.Envelope.Recorded.{recorded, IsRecordable}
use libcluon.Filter.Round.{select, passes}
use libcluon.Filter.Filtered.{cluon_filter-recorded}

abbrev no_memory : ℕ → ℕ
no_memory i = 0

abbrev room : ℕ
room = 2 ^ 31

abbrev at_time : ℕ → ℕ → Envelope
at_time id seconds = (id, ([], ((5, (6, tt)), ((0, (0, tt)), ((seconds, (6, tt)), (3, tt))))))

-- --keep=19/3 --skip=1 --end=9
abbrev kept : Options
kept = record {
  keep = codes "19/3" ∷ [];
  drop = [];
  skip = 1;
  start = 0;
  end_time = 9;
  is_relative_end = false;
  exit = false;
}

abbrev three : List Envelope
three = at_time 19 4 ∷ at_time 25 5 ∷ at_time 19 6 ∷ []

three-IsRecordable : All IsRecordable three
unfolding accept visit to_var_int var_int_of encode_key to_zig_zag le_bytes
three-IsRecordable = omega arith

-- The first one is skipped, and the second one is not in the list.
last_one : select (passes kept) (drop 1 (select is_payload three)) ≡ at_time 19 6 ∷ []
unfolding key decimal count same
last_one = refl

cluon_filter-recorded_example :
    cluon_filter room no_memory kept (recorded three)
    ≡ some (ended (recorded (select (passes kept) (drop 1 (select is_payload three)))))
cluon_filter-recorded_example =
    cluon_filter-recorded room no_memory kept (inr refl, refl, refl) (omega arith) three
      three-IsRecordable (omega arith)

-- A frame whose payload has a field of 100 bytes, of which none is there.
abbrev beyond : List ℕ
beyond = 0x0D ∷ 0xA4 ∷ 2 ∷ 0 ∷ 0 ∷ 18 ∷ 100 ∷ []

-- With room for 64 bytes the program is terminated there.
beyond_terminated : cluon_filter 64 no_memory kept beyond ≡ some terminated
unfolding cluon_filter filter_loop extract_returns extract_payload_returns header_length read
    from_le decode_returns loop_returns field_returns payload_returns from_var_int
beyond_terminated = refl
