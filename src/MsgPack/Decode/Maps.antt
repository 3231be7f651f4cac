-- ===== src/MsgPack/Decode/Maps.antt =====
-- Reading whole maps as the encoder writes them.
use libcluon.Prelude.{ℕ, zero, suc, ◌^◌, ◌<◌, ◌≡◌, ◌≢◌, refl, ap, sym, ◌∙◌, arith}
use libcluon.Prelude.{List, [], ◌++◌, length, append_assoc, append-nil}
use libcluon.Prelude.Bits.{field-bit_or}
use libcluon.Stream.{read_be-be_bytes, Stream, stream}
use libcluon.MsgPack.Constants.{Format, format_family}
use libcluon.MsgPack.Encode.{encode}
use libcluon.MsgPack.Tree.{format_of, count, map_header, value_bytes, entries_bytes}
use libcluon.MsgPack.Decode.{
  AnyValue, KeyValues, nil, pair, empty, bool_any, uint64_any, int64_any, float_any, double_any,
  string_any, map_any,
}
use libcluon.MsgPack.Decode.{
  read_string, put, read_entries, find_map, tokens_behind, read_key_values, decode,
}
use libcluon.MsgPack.Decode.Scalars.{read_string-encode}
use libcluon.MsgPack.Decode.Entries.{
  IsReadable, AreReadable, puts, read_any, read_any-uint64, read_any-int64, read_any-string,
  read_any-map, read_any-bool, read_any-float, read_any-double,
}

module _ (memory : ℕ → ℕ) where
  read_entries-step :
      (nested : Stream → KeyValues × Stream) (n : ℕ) (s s₁ s₃ : Stream) (acc : KeyValues)
      (k : List ℕ) (f : Format) (a : AnyValue)
      → read_string memory s ≡ (k, s₁)
      → read_any memory nested s₁ ≡ (f, a, s₃)
      → read_entries memory nested (suc n) s acc ≡ read_entries memory nested n s₃ (put k f a acc)
  unfolding read_entries read_any
  read_entries-step nested n s s₁ s₃ acc k f a e h =
      rw (e, ap (λ r. r.0) h, ap (λ r. r.1) h, ap (λ r. r.2) h)

  read_key_values-map_header :
      (d n : ℕ) (bytes : List ℕ)
      → n < 2 ^ 32
      → n ≢ 15
      → read_key_values memory (suc d) (stream (map_header n ++ bytes))
        ≡ read_entries memory (read_key_values memory d) n (stream bytes) nil
  unfolding read_key_values find_map tokens_behind format_family
  read_key_values-map_header d n bytes h k =
      ground (arith, field-bit_or 4 8 n, read_be-be_bytes 2 n bytes, read_be-be_bytes 4 n bytes)

  mutual
    unfolding IsReadable AreReadable value_bytes entries_bytes puts count read_entries

    read_any-value_bytes :
        (d : ℕ) (a : AnyValue) (rest : List ℕ)
        → IsReadable d a
        → read_any memory (read_key_values memory d) (stream (value_bytes a ++ rest))
          ≡ (format_of a, a, stream rest)
    read_any-value_bytes d empty rest h = absurd (omega arith)
    read_any-value_bytes d (bool_any b) rest h =
        read_any-bool memory (read_key_values memory d) b rest
    read_any-value_bytes d (uint64_any n) rest h =
        read_any-uint64 memory (read_key_values memory d) n rest h
    read_any-value_bytes d (int64_any n) rest h =
        read_any-int64 memory (read_key_values memory d) n rest h.0 h.1
    read_any-value_bytes d (float_any n) rest h =
        read_any-float memory (read_key_values memory d) n rest h
    read_any-value_bytes d (double_any n) rest h =
        read_any-double memory (read_key_values memory d) n rest h
    read_any-value_bytes d (string_any s) rest h =
        read_any-string memory (read_key_values memory d) s rest h
    read_any-value_bytes zero (map_any m) rest h = absurd (omega arith)
    read_any-value_bytes (suc d) (map_any m) rest h =
        ap (λ t. read_any memory (read_key_values memory (suc d)) (stream t))
          (append_assoc (map_header (count m)) (entries_bytes m) rest)
        ∙ read_any-map memory (read_key_values memory (suc d)) (count m) m (entries_bytes m ++ rest)
            rest h.0 h.1
            (read_key_values-map_header d (count m) (entries_bytes m ++ rest) h.0 h.1
              ∙ read_entries-entries_bytes d m rest nil h.2
              ∙ ap (λ t. (t, stream rest)) h.3)

    read_entries-entries_bytes :
        (d : ℕ) (m : KeyValues) (rest : List ℕ) (acc : KeyValues)
        → AreReadable d m
        → read_entries memory
            (read_key_values memory d)
            (count m)
            (stream (entries_bytes m ++ rest))
            acc
          ≡ (puts m acc, stream rest)
    read_entries-entries_bytes d nil rest acc h = refl
    read_entries-entries_bytes d (pair k f a m) rest acc h =
        ap (λ t. read_entries memory (read_key_values memory d) (suc (count m)) (stream t) acc)
          (append_assoc (encode [] k) (value_bytes a ++ entries_bytes m) rest
            ∙ ap (λ t. encode [] k ++ t) (append_assoc (value_bytes a) (entries_bytes m) rest))
        ∙ read_entries-step (read_key_values memory d) (count m)
            (stream (encode [] k ++ (value_bytes a ++ (entries_bytes m ++ rest))))
            (stream (value_bytes a ++ (entries_bytes m ++ rest))) (stream (entries_bytes m ++ rest))
            acc k f a
            (read_string-encode memory k (value_bytes a ++ (entries_bytes m ++ rest)) h.0.0 h.0.1)
            (read_any-value_bytes d a (entries_bytes m ++ rest) h.2
              ∙ ap (λ t. (t, a, stream (entries_bytes m ++ rest))) h.1)
        ∙ read_entries-entries_bytes d m rest (put k f a acc) h.3

  pub decode-value_bytes :
      (m : KeyValues)
      → IsReadable (suc (length (value_bytes (map_any m)))) (map_any m)
      → decode memory (value_bytes (map_any m)) ≡ m
  unfolding decode IsReadable value_bytes
  decode-value_bytes m h =
      let d = length (value_bytes (map_any m)) in
      ap (λ r. r.0)
        (ap (λ t. read_key_values memory (suc d) (stream (map_header (count m) ++ t)))
            (sym (append-nil (entries_bytes m)))
          ∙ read_key_values-map_header d (count m) (entries_bytes m ++ []) h.0 h.1
          ∙ read_entries-entries_bytes d m [] nil h.2)
      ∙ h.3
