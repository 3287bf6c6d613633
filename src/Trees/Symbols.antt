-- ===== src/Trees/Symbols.antt =====
-- The symbols of tree nodes and the kinds of identifiers (src/Trees.h).
-- A symbol is an `int` in C: an ASCII code, a token of the parser, or a member of the enumeration
-- of Trees.h. Bison numbers the tokens from 258 in the order of the `%token` lines of src/Oberon.y;
-- no theorem depends on the numbers beyond that they differ.
use obnc.Prelude.{ℕ}

abbrev pub tok_array : ℕ
tok_array = 259

abbrev pub tok_by : ℕ
tok_by = 261

abbrev pub tok_case : ℕ
tok_case = 262

abbrev pub tok_div : ℕ
tok_div = 264

abbrev pub tok_do : ℕ
tok_do = 265

abbrev pub tok_else : ℕ
tok_else = 266

abbrev pub tok_elsif : ℕ
tok_elsif = 267

abbrev pub tok_false : ℕ
tok_false = 269

abbrev pub tok_for : ℕ
tok_for = 270

abbrev pub tok_if : ℕ
tok_if = 271

abbrev pub tok_in : ℕ
tok_in = 273

abbrev pub tok_is : ℕ
tok_is = 274

abbrev pub tok_mod : ℕ
tok_mod = 275

abbrev pub tok_module : ℕ
tok_module = 276

abbrev pub tok_nil : ℕ
tok_nil = 277

abbrev pub tok_or : ℕ
tok_or = 279

abbrev pub tok_pointer : ℕ
tok_pointer = 280

abbrev pub tok_procedure : ℕ
tok_procedure = 281

abbrev pub tok_record : ℕ
tok_record = 282

abbrev pub tok_repeat : ℕ
tok_repeat = 283

abbrev pub tok_then : ℕ
tok_then = 285

abbrev pub tok_to : ℕ
tok_to = 286

abbrev pub tok_true : ℕ
tok_true = 287

abbrev pub tok_while : ℕ
tok_while = 291

abbrev pub tok_becomes : ℕ
tok_becomes = 292

abbrev pub tok_dotdot : ℕ
tok_dotdot = 293

abbrev pub tok_ge : ℕ
tok_ge = 294

abbrev pub tok_le : ℕ
tok_le = 295

abbrev pub tok_ident : ℕ
tok_ident = 296

abbrev pub tok_integer : ℕ
tok_integer = 297

abbrev pub tok_real : ℕ
tok_real = 298

abbrev pub tok_string : ℕ
tok_string = 299

abbrev pub sym_nosym : ℕ
sym_nosym = 1000

abbrev pub sym_char_constant : ℕ
sym_char_constant = 1001

abbrev pub sym_set_constant : ℕ
sym_set_constant = 1002

abbrev pub sym_boolean_type : ℕ
sym_boolean_type = 1003

abbrev pub sym_char_type : ℕ
sym_char_type = 1004

abbrev pub sym_string_type : ℕ
sym_string_type = 1005

abbrev pub sym_integer_type : ℕ
sym_integer_type = 1006

abbrev pub sym_real_type : ℕ
sym_real_type = 1007

abbrev pub sym_set_type : ℕ
sym_set_type = 1008

abbrev pub sym_byte_type : ℕ
sym_byte_type = 1009

abbrev pub sym_nil_type : ℕ
sym_nil_type = 1010

abbrev pub sym_abs_proc : ℕ
sym_abs_proc = 1011

abbrev pub sym_asr_proc : ℕ
sym_asr_proc = 1012

abbrev pub sym_assert_proc : ℕ
sym_assert_proc = 1013

abbrev pub sym_chr_proc : ℕ
sym_chr_proc = 1014

abbrev pub sym_dec_proc : ℕ
sym_dec_proc = 1015

abbrev pub sym_excl_proc : ℕ
sym_excl_proc = 1016

abbrev pub sym_floor_proc : ℕ
sym_floor_proc = 1017

abbrev pub sym_flt_proc : ℕ
sym_flt_proc = 1018

abbrev pub sym_inc_proc : ℕ
sym_inc_proc = 1019

abbrev pub sym_incl_proc : ℕ
sym_incl_proc = 1020

abbrev pub sym_len_proc : ℕ
sym_len_proc = 1021

abbrev pub sym_lsl_proc : ℕ
sym_lsl_proc = 1022

abbrev pub sym_new_proc : ℕ
sym_new_proc = 1023

abbrev pub sym_odd_proc : ℕ
sym_odd_proc = 1024

abbrev pub sym_ord_proc : ℕ
sym_ord_proc = 1025

abbrev pub sym_pack_proc : ℕ
sym_pack_proc = 1026

abbrev pub sym_ror_proc : ℕ
sym_ror_proc = 1027

abbrev pub sym_unpk_proc : ℕ
sym_unpk_proc = 1028

abbrev pub sym_case : ℕ
sym_case = 1029

abbrev pub sym_case_label_list : ℕ
sym_case_label_list = 1030

abbrev pub sym_case_rep : ℕ
sym_case_rep = 1031

abbrev pub sym_designator : ℕ
sym_designator = 1032

abbrev pub sym_exp_list : ℕ
sym_exp_list = 1033

abbrev pub sym_field_list_sequence : ℕ
sym_field_list_sequence = 1034

abbrev pub sym_ident_list : ℕ
sym_ident_list = 1035

abbrev pub sym_procedure_call : ℕ
sym_procedure_call = 1036

abbrev pub sym_range_set : ℕ
sym_range_set = 1037

abbrev pub sym_single_element_set : ℕ
sym_single_element_set = 1038

abbrev pub sym_statement_sequence : ℕ
sym_statement_sequence = 1039

abbrev pub sym_file_position : ℕ
sym_file_position = 1040

abbrev pub sym_adr_proc : ℕ
sym_adr_proc = 1041

abbrev pub sym_size_proc : ℕ
sym_size_proc = 1042

abbrev pub sym_bit_proc : ℕ
sym_bit_proc = 1043

abbrev pub sym_get_proc : ℕ
sym_get_proc = 1044

abbrev pub sym_put_proc : ℕ
sym_put_proc = 1045

abbrev pub sym_copy_proc : ℕ
sym_copy_proc = 1046

abbrev pub sym_val_proc : ℕ
sym_val_proc = 1047

abbrev pub unspecified_kind : ℕ
unspecified_kind = 0

abbrev pub qualifier_kind : ℕ
qualifier_kind = 1

abbrev pub constant_kind : ℕ
constant_kind = 2

abbrev pub type_kind : ℕ
type_kind = 3

abbrev pub field_kind : ℕ
field_kind = 4

abbrev pub variable_kind : ℕ
variable_kind = 5

abbrev pub procedure_kind : ℕ
procedure_kind = 6

abbrev pub value_param_kind : ℕ
value_param_kind = 7

abbrev pub var_param_kind : ℕ
var_param_kind = 8

abbrev pub kind_count : ℕ
kind_count = 9
