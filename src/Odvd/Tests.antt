-- ===== src/Odvd/Tests.antt =====
-- The specification of a message in which the same message is nested twice.
use libcluon.Prelude.{ℕ, ◌≡◌, refl, List, [], ◌++◌, map, codes}
use libcluon.Prelude.Decimal.{decimal, signed_decimal}
use libcluon.Visitor.{Ty, Schema, end, field, message, int32, bool}
use libcluon.Generic.Create.{Identity}
use libcluon.Odvd.{new_odvd_visitor, message_specification, texts, accept}
use libcluon.Odvd.Declared.{in_order, AreDeclared}
use libcluon.Odvd.Ordered.{declaration, message_specification-in_order}

abbrev inner : Schema
inner = field 1 (codes "x") int32 end

abbrev outer : Schema
outer =
    field 1 (codes "a") (message inner)
      (field 2 (codes "on") bool (field 3 (codes "b") (message inner) end))

abbrev type_name : Ty → List ℕ
type_name t = codes "car::Inner"

abbrev identity : Schema → Identity
identity (field id name int32 s) = record {
  id = 5;
  short_name = codes "Inner";
  long_name = codes "car.Inner";
}
identity s = record { id = 6; short_name = codes "Outer"; long_name = codes "car.Outer" }

message_specification-in_order_example :
    (message_specification (accept type_name identity outer new_odvd_visitor)
      ≡ texts (map (declaration type_name identity) (in_order outer)))
    × AreDeclared [] (in_order outer)
message_specification-in_order_example = message_specification-in_order type_name identity outer

text :
    message_specification (accept type_name identity outer new_odvd_visitor)
    ≡ codes "message car.Inner [ id = 5 ] {\n    int32 x [ default = 0, id = 1 ];\n}\n"
      ++ codes "message car.Inner [ id = 5 ] {\n    int32 x [ default = 0, id = 1 ];\n}\n"
      ++ codes "message car.Outer [ id = 6 ] {\n    car.Inner a [ id = 1 ];\n"
      ++ codes "    bool on [ default = false, id = 2 ];\n    car.Inner b [ id = 3 ];\n}\n"
unfolding accept decimal signed_decimal
text = refl
