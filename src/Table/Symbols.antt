-- ===== src/Table/Symbols.antt =====
-- The numbers of symbols and identifier kinds in a symbol file (src/Table.c).
use obnc.Prelude.{ℕ}

abbrev pub sf_ident : ℕ
sf_ident = 1

abbrev pub sf_boolean : ℕ
sf_boolean = 2

abbrev pub sf_char : ℕ
sf_char = 3

abbrev pub sf_integer : ℕ
sf_integer = 4

abbrev pub sf_real : ℕ
sf_real = 5

abbrev pub sf_string : ℕ
sf_string = 6

abbrev pub sf_set : ℕ
sf_set = 7

abbrev pub sf_boolean_type : ℕ
sf_boolean_type = 8

abbrev pub sf_char_type : ℕ
sf_char_type = 9

abbrev pub sf_integer_type : ℕ
sf_integer_type = 10

abbrev pub sf_real_type : ℕ
sf_real_type = 11

abbrev pub sf_byte_type : ℕ
sf_byte_type = 12

abbrev pub sf_set_type : ℕ
sf_set_type = 13

abbrev pub sf_array : ℕ
sf_array = 14

abbrev pub sf_record : ℕ
sf_record = 15

abbrev pub sf_pointer : ℕ
sf_pointer = 16

abbrev pub sf_procedure : ℕ
sf_procedure = 17

abbrev pub sf_const_kind : ℕ
sf_const_kind = 1

abbrev pub sf_type_kind : ℕ
sf_type_kind = 2

abbrev pub sf_var_kind : ℕ
sf_var_kind = 3

abbrev pub sf_procedure_kind : ℕ
sf_procedure_kind = 4

abbrev pub sf_field_kind : ℕ
sf_field_kind = 5

abbrev pub sf_value_param_kind : ℕ
sf_value_param_kind = 6

abbrev pub sf_var_param_kind : ℕ
sf_var_param_kind = 7
