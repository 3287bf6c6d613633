-- ===== src/Examples/SymbolFiles.antt =====
-- Numbers and nodes that are written to a symbol file and read back.
use obnc.Prelude.{ℕ, ◌≡◌, refl, true, Option, none, [], Bytes, codes, arith, ok}
use obnc.Maps
use obnc.Trees.Symbols.{tok_string}
use obnc.Trees.Constants as Trees
use obnc.Trees.Nodes.{string_value, Store, symbol}
use obnc.Table.Writer.{write, print_nat, print_digits, string_body}
use obnc.Table.Constants.{of_string, IsRead, constant-roundtrip}
use obnc.Examples.Program.{program, text_exp}

abbrev no_real : Bytes → Option (ℕ × Bytes)
no_real s = none

abbrev print_nothing : ℕ → Bytes
print_nothing x = []

abbrev strings : Store
strings = record program {
  node = λ p. record (program.node p) { symbol = tok_string; value = string_value (codes "abc") };
}

constant-roundtrip_example :
    (write print_nothing 1 text_exp true strings Maps.new
      ≡ ok (codes "(6 \"abc\")", strings, Maps.new))
    × IsRead 127 no_real 0 true program (codes "\n") (of_string (codes "abc"))
unfolding symbol Trees.string print_nat print_digits string_body
constant-roundtrip_example =
    constant-roundtrip print_nothing 127 no_real strings program text_exp (of_string (codes "abc"))
      0 0 true Maps.new (codes "\n") (refl, refl) (omega arith) refl
