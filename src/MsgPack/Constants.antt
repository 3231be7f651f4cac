-- ===== src/MsgPack/Constants.antt =====
-- enum class MsgPackConstants (libcluon/include/cluon/MsgPackConstants.hpp) and getFormatFamily
-- (libcluon/src/FromMsgPackVisitor.cpp).
use libcluon.Prelude.{ℕ, ◌&&◌, ltb, leb, ◌==◌, if◌then◌else◌}

abbrev pub is_false : ℕ
is_false = 0xC2

abbrev pub is_true : ℕ
is_true = 0xC3

abbrev pub float_tag : ℕ
float_tag = 0xCA

abbrev pub double_tag : ℕ
double_tag = 0xCB

abbrev pub uint8_tag : ℕ
uint8_tag = 0xCC

abbrev pub uint16_tag : ℕ
uint16_tag = 0xCD

abbrev pub uint32_tag : ℕ
uint32_tag = 0xCE

abbrev pub uint64_tag : ℕ
uint64_tag = 0xCF

abbrev pub int8_tag : ℕ
int8_tag = 0xD0

abbrev pub int16_tag : ℕ
int16_tag = 0xD1

abbrev pub int32_tag : ℕ
int32_tag = 0xD2

abbrev pub int64_tag : ℕ
int64_tag = 0xD3

abbrev pub fixstr : ℕ
fixstr = 0xA0

abbrev pub fixstr_end : ℕ
fixstr_end = 0xBF

abbrev pub str8 : ℕ
str8 = 0xD9

abbrev pub str16 : ℕ
str16 = 0xDA

abbrev pub str32 : ℕ
str32 = 0xDB

abbrev pub fixmap : ℕ
fixmap = 0x80

abbrev pub fixmap_end : ℕ
fixmap_end = 0x8F

abbrev pub map16 : ℕ
map16 = 0xDE

abbrev pub map32 : ℕ
map32 = 0xDF

-- UNKNOWN_FORMAT to MAP_FORMAT
pub data Format : Type 0 where
  unknown_format bool_format uint_format int_format float_format str_format map_format : Format

unfoldable pub format_family : ℕ → Format
format_family t =
    if t == is_false
    then bool_format
    else if t == is_true
    then bool_format
    else if leb t 0x7F
    then uint_format
    else if t == uint8_tag
    then uint_format
    else if t == uint16_tag
    then uint_format
    else if t == uint32_tag
    then uint_format
    else if t == uint64_tag
    then uint_format
    else if leb 0xE0 t
    then int_format
    else if t == int8_tag
    then int_format
    else if t == int16_tag
    then int_format
    else if t == int32_tag
    then int_format
    else if t == int64_tag
    then int_format
    else if t == float_tag
    then float_format
    else if t == double_tag
    then float_format
    else if leb fixstr t && ltb t fixstr_end
    then str_format
    else if t == str8
    then str_format
    else if t == str16
    then str_format
    else if t == str32
    then str_format
    else if leb fixmap t && ltb t fixmap_end
    then map_format
    else if t == map16
    then map_format
    else if t == map32
    then map_format
    else unknown_format
