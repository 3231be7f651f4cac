-- ===== src/Odvd.antt =====
-- ToODVDVisitor (libcluon/src/ToODVDVisitor.cpp, libcluon/include/cluon/ToODVDVisitor.hpp): the
-- specification of a message. The values of the fields are not looked at.
pub mod Declared
pub mod Ordered
mod Tests
use libcluon.Prelude.{ℕ, ◌&&◌, ◌==◌, List, [], ◌∷◌, ◌++◌, if◌then◌else◌, codes}
use libcluon.Prelude.Decimal.{decimal, signed_decimal}
use libcluon.Visitor.{Ty, Schema, end, field, message}
use libcluon.Visitor.{bool, char, int8, uint8, int16, uint16, int32, uint32, int64, uint64}
use libcluon.Visitor.{float, double, string}
use libcluon.Generic.Create.{Identity}

-- m_forwardDeclarations and what was written to m_buffer
pub record OdvdVisitor : Type 0 where
  pub forward_declarations : List (List ℕ)
  pub buffer : List ℕ

abbrev pub new_odvd_visitor : OdvdVisitor
new_odvd_visitor = record { forward_declarations = []; buffer = [] }

abbrev pub texts : List (List ℕ) → List ℕ
texts [] = []
texts (t ∷ ts) = t ++ texts ts

abbrev pub message_specification : OdvdVisitor → List ℕ
message_specification o = texts o.forward_declarations ++ o.buffer

abbrev pub print : List ℕ → OdvdVisitor → OdvdVisitor
print text o = record o { buffer = o.buffer ++ text }

abbrev pub pre_visit : Identity → OdvdVisitor → OdvdVisitor
pre_visit m = print (
    codes "message " ++ m.long_name ++ codes " [ id = " ++ signed_decimal 32 m.id ++ codes " ] {\n")

abbrev pub post_visit : OdvdVisitor → OdvdVisitor
post_visit = print (codes "}\n")

-- Type and initial value that visit() writes.
abbrev pub keyword : Ty → List ℕ
keyword bool = codes "bool"
keyword char = codes "char"
keyword int8 = codes "int8"
keyword uint8 = codes "uint8"
keyword int16 = codes "int16"
keyword uint16 = codes "uint16"
keyword int32 = codes "int32"
keyword uint32 = codes "uint32"
keyword int64 = codes "int64"
keyword uint64 = codes "uint64"
keyword float = codes "float"
keyword double = codes "double"
keyword string = codes "string"
keyword (message s) = []

abbrev pub initial_value : Ty → List ℕ
initial_value bool = codes "false"
initial_value char = codes "'0'"
initial_value float = codes "0.0"
initial_value double = codes "0.0"
initial_value string = codes "\"\""
initial_value t = codes "0"

-- std::regex_replace of "::" by ".".
unfoldable pub dotted : List ℕ → List ℕ
dotted [] = []
dotted (b ∷ []) = b ∷ []
dotted (b ∷ c ∷ bs) =
    let behind = dotted bs in
    let next = dotted (c ∷ bs) in if (b == 0x3A) && (c == 0x3A) then 0x2E ∷ behind else b ∷ next

module _ (type_name : Ty → List ℕ) (identity : Schema → Identity) where
  -- The line of a field.
  abbrev pub field_line : ℕ → List ℕ → Ty → List ℕ
  field_line id name (message s) =
      codes "    "
      ++ dotted (type_name (message s))
      ++ codes " "
      ++ name
      ++ codes " [ id = "
      ++ decimal id
      ++ codes " ];\n"
  field_line id name t =
      codes "    "
      ++ keyword t
      ++ codes " "
      ++ name
      ++ codes " [ default = "
      ++ initial_value t
      ++ codes ", id = "
      ++ decimal id
      ++ codes " ];\n"

  abbrev pub with_declarations : List ℕ → OdvdVisitor → OdvdVisitor
  with_declarations text o = record o { forward_declarations = text ∷ o.forward_declarations }

  unfoldable mutual
    unfolding dotted

    pub visit : ℕ → List ℕ → Ty → OdvdVisitor → OdvdVisitor
    visit id name (message s) o =
        let nested = post_visit (visit_fields s (pre_visit (identity s) new_odvd_visitor)) in
        print (field_line id name (message s)) (with_declarations (message_specification nested) o)
    visit id name t o = print (field_line id name t) o

    pub visit_fields : Schema → OdvdVisitor → OdvdVisitor
    visit_fields end o = o
    visit_fields (field id name t s) o = visit_fields s (visit id name t o)

  unfoldable pub accept : Schema → OdvdVisitor → OdvdVisitor
  unfolding visit_fields
  accept s o = post_visit (visit_fields s (pre_visit (identity s) o))
