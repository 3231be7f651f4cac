-- ===== src/Lcm/Channels.antt =====
-- Packets as senders write them, and the entries of the scope.
use libcluon.Prelude.{
  ℕ, ◌+◌, ◌<◌, ◌≡◌, ◌≢◌, refl, sym, ap, ◌∙◌, arith, true, false, List, [], ◌∷◌, ◌++◌, Option, some,
  if◌then◌else◌, length, take, drop, length-append, All, Bool-cases, Option-cases, inl, inr, same,
  same_self, same_equal,
}
use libcluon.Prelude.Words.{from_be, from_be_onto}
use libcluon.Lcm.Packet.{
  Specification, split_at_zero, open_packet, insert, lookup, insert_all, get_generic_message,
  is_empty, created, entry,
}

-- A packet: the magic number, the sequence number 0, the name of the channel and the payload.
unfoldable pub packet : List ℕ → List ℕ → List ℕ
packet channel payload =
    (0x4C ∷ 0x43 ∷ 0x30 ∷ 0x32 ∷ 0 ∷ 0 ∷ 0 ∷ 0 ∷ []) ++ (channel ++ (0 ∷ payload))

abbrev pub NonZero : ℕ → Type 0
NonZero b = b ≢ 0

split_at_zero-append :
    (channel payload : List ℕ)
    → All NonZero channel
    → split_at_zero (channel ++ (0 ∷ payload)) ≡ some (channel, payload)
unfolding split_at_zero
split_at_zero-append [] payload h = refl
split_at_zero-append (b ∷ channel) payload h =
    ground (arith, h.0, split_at_zero-append channel payload h.1)

pub open_packet-packet :
    (channel payload : List ℕ)
    → All NonZero channel
    → 0 < length channel + length payload
    → open_packet (packet channel payload) ≡ some (channel, payload)
unfolding open_packet packet from_be_onto
open_packet-packet channel payload h l =
    ground (arith, length-append channel (0 ∷ payload), split_at_zero-append channel payload h)

-- The parts of what is split.
split_at_zero-parts :
    (bytes before behind : List ℕ)
    → split_at_zero bytes ≡ some (before, behind)
    → (bytes ≡ before ++ (0 ∷ behind)) × All NonZero before
unfolding split_at_zero
split_at_zero-parts [] before behind h = absurd (ground arith)
split_at_zero-parts (b ∷ bs) [] behind h =
    let e : b ≡ 0 = ground arith in
    let f : bs ≡ behind = ground arith in (ap (λ t. t ∷ bs) e ∙ ap (λ t. 0 ∷ t) f, tt)
split_at_zero-parts (b ∷ bs) (c ∷ before) behind h =
    let e : b ≡ c = ground arith in
    let n : c ≢ 0 = ground arith in
    let f : split_at_zero bs ≡ some (before, behind) = ground arith in
    let rest = split_at_zero-parts bs before behind f in
    (ap (λ t. t ∷ bs) e ∙ ap (λ t. c ∷ t) rest.0, (n, rest.1))

-- What is opened is a packet of the right kind.
abbrev pub IsPacket : List ℕ → List ℕ → List ℕ → Type 0
IsPacket bytes channel payload =
    (from_be (take 4 bytes) ≡ 0x4C433032)
    × (from_be (take 4 (drop 4 bytes)) ≡ 0)
    × (drop 8 bytes ≡ channel ++ (0 ∷ payload))
    × All NonZero channel

open_packet-IsPacket :
    (bytes channel payload : List ℕ)
    → open_packet bytes ≡ some (channel, payload)
    → IsPacket bytes channel payload
unfolding open_packet
open_packet-IsPacket bytes channel payload h =
    let m : from_be (take 4 bytes) ≡ 0x4C433032 = ground arith in
    let n : from_be (take 4 (drop 4 bytes)) ≡ 0 = ground arith in
    let f : split_at_zero (drop 8 bytes) ≡ some (channel, payload) = ground arith in
    let parts = split_at_zero-parts (drop 8 bytes) channel payload f in (m, n, parts.0, parts.1)

same_not : (i k : List ℕ) → same i k ≡ false → same k i ≡ false
same_not i k h = elim (Bool-cases (same k i)) [
  | inl f ↦
      (let g : same i k ≡ true = ap (λ t. same i t) (same_equal k i f) ∙ same_self i in
        ground arith)
  | inr f ↦ f
]

module _ {D : Type 0} where
  is_empty_not : (ds : List D) → 0 < length ds → is_empty ds ≡ false
  is_empty_not [] h = absurd (omega arith)
  is_empty_not (d ∷ ds) h = refl

  entry-lookup :
      (spec : Specification D) (channel payload : List ℕ) (d : D)
      → lookup channel spec.scope ≡ some d
      → entry spec (some (channel, payload)) ≡ some (d, payload)
  entry-lookup spec channel payload d h = ap (λ o. created payload o) h

  -- An LCM packet on a channel whose name has a meta message and no zero in it is decoded by that
  -- meta message from the payload, if name and payload are not both empty and there are meta
  -- messages.
  pub get_generic_message-packet :
      (spec : Specification D) (channel payload : List ℕ) (d : D)
      → 0 < length spec.list
      → lookup channel spec.scope ≡ some d
      → All NonZero channel
      → 0 < length channel + length payload
      → get_generic_message spec (packet channel payload) ≡ some (d, payload)
  unfolding get_generic_message
  get_generic_message-packet spec channel payload d n h z l = rw (is_empty_not spec.list n) (
      ap (λ o. entry spec o) (open_packet-packet channel payload z l)
      ∙ entry-lookup spec channel payload d h)

  -- Where a generic message is decoded, the bytes have the magic number, the sequence number 0,
  -- and a channel name without a zero, whose meta message it is, a zero and the payload.
  pub get_generic_message-IsPacket :
      (spec : Specification D) (bytes payload : List ℕ) (d : D)
      → get_generic_message spec bytes ≡ some (d, payload)
      → (channel : List ℕ) × IsPacket bytes channel payload × (lookup channel spec.scope ≡ some d)
  unfolding get_generic_message
  get_generic_message-IsPacket spec bytes payload d h = elim (Option-cases (open_packet bytes)) [
    | inl o ↦ absurd (ground arith)
    | inr (p, o) ↦
        (let e : payload ≡ p.1 = ground arith in
          let f : lookup p.0 spec.scope ≡ some d = ground arith in
          (p.0, open_packet-IsPacket bytes p.0 payload (o ∙ ap (λ x. some (p.0, x)) (sym e)), f))
  ]

  -- Two names that are the same for a third one.
  lookup-insert :
      (j k : List ℕ) (d : D) (m : List (List ℕ × D))
      → lookup j (insert k d m) ≡ (if same k j then some d else lookup j m)
  unfolding lookup insert
  lookup-insert j k d [] = refl
  lookup-insert j k d ((i, e) ∷ m) = elim (Bool-cases (same i k)) [
    | inl h ↦
        (let f : same i j ≡ same k j = ap (λ t. same t j) (same_equal i k h) in
          ground (arith, f, h))
    | inr h ↦ elim (Bool-cases (same i j)) [
      | inl f ↦
          (let n : same k j ≡ false =
              ap (λ t. same k t) (sym (same_equal i j f)) ∙ same_not i k h in
            rw (h, f, n))
      | inr f ↦ rw (h, f, lookup-insert j k d m)
    ]
  ]

  -- The last one of the meta messages with a name.
  unfoldable pub last_named : (D → List ℕ) → List ℕ → List D → Option D → Option D
  last_named name k [] old = old
  last_named name k (d ∷ ds) old = last_named name k ds (if same (name d) k then some d else old)

  -- In the scope of meta messages, a name has the last of the inserted meta messages with that
  -- name, and the one from before where there is none.
  pub lookup-insert_all :
      (name : D → List ℕ) (k : List ℕ) (ds : List D) (m : List (List ℕ × D))
      → lookup k (insert_all name ds m) ≡ last_named name k ds (lookup k m)
  unfolding insert_all last_named
  lookup-insert_all name k [] m = refl
  lookup-insert_all name k (d ∷ ds) m =
      lookup-insert_all name k ds (insert (name d) d m)
      ∙ ap (λ o. last_named name k ds o) (lookup-insert k (name d) d m)
