-- ===== src/Lcm/Packet.antt =====
-- LCMToGenericMessage (libcluon/src/LCMToGenericMessage.cpp,
-- libcluon/include/cluon/LCMToGenericMessage.hpp). A meta message is a value of any type with a
-- name; what parses a specification is a parameter, and the result is the meta message and the bytes
-- that its generic message is decoded from.
use libcluon.Prelude.{
  same, ℕ, ◌%◌, ◌^◌, Bool, true, false, List, [], ◌∷◌, Option, none, some, ltb, ◌==◌, if◌then◌else◌,
  length, take, drop,
}
use libcluon.Prelude.Words.{ℤ, negsuc, signed, from_be}

-- m_listOfMetaMessages and m_scopeOfMetaMessages
pub record Specification (D : Type 0) : Type 0 where
  pub list : List D
  pub scope : List (List ℕ × D)

-- data.find('\0', START_POSITION): the bytes before the zero and behind it.
unfoldable pub split_at_zero : List ℕ → Option (List ℕ × List ℕ)
split_at_zero [] = none
split_at_zero (b ∷ bs) =
    let rest = split_at_zero bs in
    if b == 0
    then some ([], bs)
    else elim rest [ none ↦ none | some (before, behind) ↦ some (b ∷ before, behind) ]

-- The magic number, the sequence number, and the name of the channel with what is behind it.
unfoldable pub open_packet : List ℕ → Option (List ℕ × List ℕ)
open_packet bytes =
    if ltb 9 (length bytes)
    then (if from_be (take 4 bytes) == 0x4C433032
        then (if from_be (take 4 (drop 4 bytes)) == 0 then split_at_zero (drop 8 bytes) else none)
        else none)
    else none

module _ {D : Type 0} where
  -- m_scopeOfMetaMessages[name] = mm, and the entry of a name.
  unfoldable pub insert : List ℕ → D → List (List ℕ × D) → List (List ℕ × D)
  insert k d [] = (k, d) ∷ []
  insert k d ((j, e) ∷ m) = if same j k then (k, d) ∷ m else (j, e) ∷ insert k d m

  unfoldable pub lookup : List ℕ → List (List ℕ × D) → Option D
  lookup k [] = none
  lookup k ((j, e) ∷ m) = if same j k then some e else lookup k m

  module _ (name : D → List ℕ) where
    unfoldable pub insert_all : List D → List (List ℕ × D) → List (List ℕ × D)
    insert_all [] m = m
    insert_all (d ∷ ds) m = insert_all ds (insert (name d) d m)

    -- setMessageSpecification(ms), where `parsed` is what the parser makes of ms.
    unfoldable pub set_message_specification : Option (List D) → Specification D × ℤ
    set_message_specification none = (record { list = []; scope = [] }, negsuc 0)
    set_message_specification (some ds) =
        (record { list = ds; scope = insert_all ds [] }, signed 32 (length ds % 2 ^ 32))

  -- getGenericMessage(data)
  abbrev pub is_empty : List D → Bool
  is_empty [] = true
  is_empty (d ∷ ds) = false

  abbrev pub created : List ℕ → Option D → Option (D × List ℕ)
  created payload none = none
  created payload (some d) = some (d, payload)

  abbrev pub entry : Specification D → Option (List ℕ × List ℕ) → Option (D × List ℕ)
  entry spec none = none
  entry spec (some (channel, payload)) = created payload (lookup channel spec.scope)

  unfoldable pub get_generic_message : Specification D → List ℕ → Option (D × List ℕ)
  get_generic_message spec bytes =
      if is_empty spec.list then none else entry spec (open_packet bytes)
