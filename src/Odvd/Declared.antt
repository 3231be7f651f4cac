-- ===== src/Odvd/Declared.antt =====
-- The order of the messages in a specification (libcluon/include/cluon/ToODVDVisitor.hpp, where nested
-- ones are declared in front).
use libcluon.Prelude.{refl, sym, List, [], ◌∷◌, ◌++◌, append_assoc, append-nil}
use mathlib.Core.Path.{subst}
use mathlib.Core.List.{Memᴰ}
use mathlib.Core.List.Memᴰ.{head, tail}
use libcluon.Visitor.{Ty, Schema, end, field, message}
use libcluon.Visitor.{bool, char, int8, uint8, int16, uint16, int32, uint32, int64, uint64}
use libcluon.Visitor.{float, double, string}

-- The messages in their order: those that are nested in the last field first, and a message behind
-- those that are nested in it.
abbrev mutual
  pub nested_in : Ty → List Schema
  nested_in (message r) = nested_in_order r ++ r ∷ []
  nested_in t = []

  pub nested_in_order : Schema → List Schema
  nested_in_order end = []
  nested_in_order (field id name t s) = nested_in_order s ++ nested_in t

abbrev pub in_order : Schema → List Schema
in_order s = nested_in_order s ++ s ∷ []

-- The messages that are nested in fields of a message stand in a list.
abbrev pub IsDeclared : List Schema → Ty → Type 0
IsDeclared seen (message r) = Memᴰ r seen
IsDeclared seen t = Unit {0}

abbrev pub Declared : List Schema → Schema → Type 0
Declared seen end = Unit {0}
Declared seen (field id name t s) = IsDeclared seen t × Declared seen s

-- Each message of a list comes behind those that are nested in it.
abbrev pub AreDeclared : List Schema → List Schema → Type 0
AreDeclared seen [] = Unit {0}
AreDeclared seen (s ∷ ss) = Declared seen s × AreDeclared (seen ++ s ∷ []) ss

Mem-append : (r : Schema) (xs ys : List Schema) → Memᴰ r xs → Memᴰ r (xs ++ ys)
Mem-append r [] ys m = elim m [ ]
Mem-append r (x ∷ xs) ys (head e) = head e
Mem-append r (x ∷ xs) ys (tail m) = tail (Mem-append r xs ys m)

Mem-last : (r : Schema) (xs : List Schema) → Memᴰ r (xs ++ r ∷ [])
Mem-last r [] = head refl
Mem-last r (x ∷ xs) = tail (Mem-last r xs)

Mem-append_left : (r : Schema) (xs ys : List Schema) → Memᴰ r ys → Memᴰ r (xs ++ ys)
Mem-append_left r [] ys m = m
Mem-append_left r (x ∷ xs) ys m = tail (Mem-append_left r xs ys m)

IsDeclared-append : (t : Ty) (xs ys : List Schema) → IsDeclared xs t → IsDeclared (xs ++ ys) t
IsDeclared-append (message r) xs ys m = Mem-append r xs ys m
IsDeclared-append bool xs ys m = tt
IsDeclared-append char xs ys m = tt
IsDeclared-append int8 xs ys m = tt
IsDeclared-append uint8 xs ys m = tt
IsDeclared-append int16 xs ys m = tt
IsDeclared-append uint16 xs ys m = tt
IsDeclared-append int32 xs ys m = tt
IsDeclared-append uint32 xs ys m = tt
IsDeclared-append int64 xs ys m = tt
IsDeclared-append uint64 xs ys m = tt
IsDeclared-append float xs ys m = tt
IsDeclared-append double xs ys m = tt
IsDeclared-append string xs ys m = tt

Declared-append : (s : Schema) (xs ys : List Schema) → Declared xs s → Declared (xs ++ ys) s
Declared-append end xs ys d = tt
Declared-append (field id name t s) xs ys (m, d) =
    (IsDeclared-append t xs ys m, Declared-append s xs ys d)

IsDeclared-nested_in : (t : Ty) (seen : List Schema) → IsDeclared (seen ++ nested_in t) t
IsDeclared-nested_in (message r) seen =
    Mem-append_left r seen (nested_in_order r ++ r ∷ []) (Mem-last r (nested_in_order r))
IsDeclared-nested_in bool seen = tt
IsDeclared-nested_in char seen = tt
IsDeclared-nested_in int8 seen = tt
IsDeclared-nested_in uint8 seen = tt
IsDeclared-nested_in int16 seen = tt
IsDeclared-nested_in uint16 seen = tt
IsDeclared-nested_in int32 seen = tt
IsDeclared-nested_in uint32 seen = tt
IsDeclared-nested_in int64 seen = tt
IsDeclared-nested_in uint64 seen = tt
IsDeclared-nested_in float seen = tt
IsDeclared-nested_in double seen = tt
IsDeclared-nested_in string seen = tt

Declared-nested_in_order :
    (s : Schema) (seen : List Schema) → Declared (seen ++ nested_in_order s) s
Declared-nested_in_order end seen = tt
Declared-nested_in_order (field id name t s) seen =
    subst (λ l. Declared l (field id name t s))
      (append_assoc seen (nested_in_order s) (nested_in t))
      (
        IsDeclared-nested_in t (seen ++ nested_in_order s),
        Declared-append s (seen ++ nested_in_order s) (nested_in t)
            (Declared-nested_in_order s seen),
      )

AreDeclared-append :
    (seen xs ys : List Schema)
    → AreDeclared seen xs
    → AreDeclared (seen ++ xs) ys
    → AreDeclared seen (xs ++ ys)
AreDeclared-append seen [] ys d e = subst (λ l. AreDeclared l ys) (append-nil seen) e
AreDeclared-append seen (x ∷ xs) ys (d, ds) e = (
  d,
  AreDeclared-append (seen ++ x ∷ []) xs ys ds
      (subst (λ l. AreDeclared l ys) (sym (append_assoc seen (x ∷ []) xs)) e),
)

pub AreDeclared-behind :
    (s : Schema) (seen : List Schema)
    → AreDeclared seen (nested_in_order s)
    → AreDeclared seen (nested_in_order s ++ s ∷ [])
AreDeclared-behind s seen h =
    AreDeclared-append seen (nested_in_order s) (s ∷ []) h (Declared-nested_in_order s seen, tt)

mutual
  AreDeclared-nested_in : (t : Ty) (seen : List Schema) → AreDeclared seen (nested_in t)
  AreDeclared-nested_in (message r) seen =
      AreDeclared-behind r seen (AreDeclared-nested_in_order r seen)
  AreDeclared-nested_in bool seen = tt
  AreDeclared-nested_in char seen = tt
  AreDeclared-nested_in int8 seen = tt
  AreDeclared-nested_in uint8 seen = tt
  AreDeclared-nested_in int16 seen = tt
  AreDeclared-nested_in uint16 seen = tt
  AreDeclared-nested_in int32 seen = tt
  AreDeclared-nested_in uint32 seen = tt
  AreDeclared-nested_in int64 seen = tt
  AreDeclared-nested_in uint64 seen = tt
  AreDeclared-nested_in float seen = tt
  AreDeclared-nested_in double seen = tt
  AreDeclared-nested_in string seen = tt

  pub AreDeclared-nested_in_order :
      (s : Schema) (seen : List Schema) → AreDeclared seen (nested_in_order s)
  AreDeclared-nested_in_order end seen = tt
  AreDeclared-nested_in_order (field id name t s) seen =
      AreDeclared-append seen (nested_in_order s) (nested_in t) (AreDeclared-nested_in_order s seen)
        (AreDeclared-nested_in t (seen ++ nested_in_order s))
