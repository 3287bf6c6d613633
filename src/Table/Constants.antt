-- ===== src/Table/Constants.antt =====
-- A constant that is written to a symbol file and read back.
use mathlib.Core.List.{append_assoc}
use obnc.Prelude.{
  ℕ, suc, ◌+◌, ◌*◌, ◌≤◌, ◌<◌, ◌≡◌, ◌≢◌, refl, Bool, true, false, Option, some, [], ◌∷◌, ◌++◌, arith,
  Bytes, All, leb, ◌==◌, if◌then◌else◌, ok,
}
use obnc.Prelude.Int.{ℤ, pos}
use obnc.Range.{InRange}
use obnc.Maps.{MapOf}
use obnc.Trees.Symbols.{
  tok_true, tok_false, tok_integer, tok_string, sym_char_constant, sym_set_constant,
}
use obnc.Trees.Nodes.{Ref, null, Store, symbol}
use obnc.Trees.Constants as Trees
use obnc.Trees.Constants.{new_boolean, new_string}
use obnc.Trees.RoundTrips.{Grows, constants-roundtrip, boolean-roundtrip}
use obnc.Trees.Strings.{string_store-Makes}
use obnc.Table.Scan.{
  is_space, skip_space, expect, looking_at, at_end_of_list, is_digit, digits, starts_digit, sign,
  scan_int, quoted,
}
use obnc.Table.Reader.{read_sexp, read_symbol, read_string, char_of_int, int_32, string_node}
use obnc.Table.Writer.{write, print_nat, print_int, string_body, int_of_char, enclosed}
use obnc.Table.Numbers.{
  Ends, scan_nat, scan_int-print_int, scan_unsigned-print_nat, scan_hex-print_hex,
}

-- A text that can stand between quotes.
abbrev pub IsQuotable : Bytes → Type 0
IsQuotable s = All (λ c. (c ≢ 34) × (c ≢ 10)) s

pub quoted-text : (s rest : Bytes) → IsQuotable s → quoted (s ++ 34 ∷ rest) ≡ some (s, rest)
unfolding quoted
quoted-text [] rest h = refl
quoted-text (c ∷ s) rest ((nq, nl), hs) =
    let q : (c == 34) ≡ false = ground arith in
    let l : (c == 10) ≡ false = ground arith in rw (q, l, quoted-text s rest hs)

by_quoted :
    (s b : Bytes) (q : Ref) (rest : Bytes) (t u : Store)
    → quoted s ≡ some (b, rest)
    → new_string b t ≡ ok (q, u)
    → read_string (b' ' ∷ 34 ∷ s) t ≡ ok (q, rest, u)
unfolding read_string string_node skip_space is_space looking_at expect
by_quoted s b q rest t u h run = rw (h, run)

digit_not_end : (s : Bytes) → starts_digit s ≡ true → at_end_of_list s ≡ false
unfolding at_end_of_list looking_at starts_digit is_digit
digit_not_end [] h = refl
digit_not_end (c ∷ s) h = ground arith

module _ (max : ℕ) (scan_real : Bytes → Option (ℕ × Bytes)) where
  -- An s-expression is read as its symbol is.
  pub read_enclosed :
      (sym f : ℕ) (root : Bool) (t u : Store) (q : Ref) (body rest : Bytes)
      → sym ≤ int_32
      → Ends (body ++ b')' ∷ rest)
      → read_symbol max scan_real f (pos sym) root (body ++ b')' ∷ rest) t ≡ ok (q, b')' ∷ rest, u)
      → read_sexp max scan_real (suc (suc f)) root (enclosed sym body ++ rest) t ≡ ok (q, rest, u)
  unfolding read_sexp expect skip_space is_space print_int
  read_enclosed sym f root t u q body rest small ends run =
      let scanned =
        (scan_int-print_int int_32 (pos sym) (body ++ b')' ∷ rest) (omega arith) ends).0 in
      rw (
        append_assoc,
        append_assoc,
        digit_not_end (print_nat sym ++ (body ++ b')' ∷ rest))
            (scan_nat sym (body ++ b')' ∷ rest) ends).2,
        scanned,
        run,
      )

-- A constant of a symbol file, and the node that holds it.
pub data Constant : Type 0 where
  of_boolean : Bool → Constant
  of_char : ℕ → Constant
  of_integer : ℤ → Constant
  of_string : Bytes → Constant
  of_set : ℕ → Constant

abbrev pub Holds : Store → Ref → Constant → Type 0
Holds s p (of_boolean b) =
    (symbol p s ≡ ok (if b then tok_true else tok_false)) × (Trees.boolean p s ≡ ok b)
Holds s p (of_char c) = (symbol p s ≡ ok sym_char_constant) × (Trees.char p s ≡ ok c)
Holds s p (of_integer i) = (symbol p s ≡ ok tok_integer) × (Trees.integer p s ≡ ok i)
Holds s p (of_string b) = (symbol p s ≡ ok tok_string) × (Trees.string p s ≡ ok b)
Holds s p (of_set u) = (symbol p s ≡ ok sym_set_constant) × (Trees.set p s ≡ ok u)

-- A constant that a program can have: a byte, a number of its type, or a text without quotes and
-- line ends, unless it has at most one byte; no text has a null or more than 2^31 - 1 bytes.
abbrev pub Fits : ℕ → Constant → Type 0
Fits max (of_boolean b) = Unit
Fits max (of_char c) = c < 256
Fits max (of_integer i) = InRange max i
Fits max (of_string []) = Unit
Fits max (of_string (c ∷ [])) = (0 < c) × (c < 256)
Fits max (of_string b) = IsQuotable b
Fits max (of_set u) = u ≤ 2 * max + 1

-- What is written for a constant.
abbrev pub text : Constant → Bytes
text (of_boolean b) = enclosed 2 (b' ' ∷ (if b then b'1' else b'0') ∷ [])
text (of_char c) = enclosed 3 (b' ' ∷ print_int (int_of_char c))
text (of_integer i) = enclosed 4 (b' ' ∷ print_int i)
text (of_string b) = enclosed 6 (b' ' ∷ string_body b)
text (of_set u) = enclosed 7 (b' ' ∷ print_nat u)

set_not_null : (s : Store) (p : Ref) (x : ℕ) → symbol p s ≡ ok x → (p == null) ≡ false
unfolding symbol
set_not_null s p x h = ground arith

write-text :
    (print_real : ℕ → Bytes) (s : Store) (p : Ref) (c : Constant) (f : ℕ) (root : Bool)
    (m : MapOf Ref)
    → Holds s p c
    → write print_real (suc f) p root s m ≡ ok (text c, s, m)
unfolding write
write-text print_real s p (of_boolean true) f root m (hs, h) = rw (set_not_null s p tok_true hs, hs)
write-text print_real s p (of_boolean false) f root m (hs, h) =
    rw (set_not_null s p tok_false hs, hs)
write-text print_real s p (of_char c) f root m (hs, h) =
    rw (set_not_null s p sym_char_constant hs, hs, h)
write-text print_real s p (of_integer i) f root m (hs, h) =
    rw (set_not_null s p tok_integer hs, hs, h)
write-text print_real s p (of_string b) f root m (hs, h) =
    rw (set_not_null s p tok_string hs, hs, h)
write-text print_real s p (of_set u) f root m (hs, h) =
    rw (set_not_null s p sym_set_constant hs, hs, h)

char_of_int-int_of_char : (c : ℕ) → c < 256 → char_of_int (int_of_char c) ≡ c
char_of_int-int_of_char c lt = ground arith

module _ (max : ℕ) (scan_real : Bytes → Option (ℕ × Bytes)) (f : ℕ) (root : Bool) (t : Store)
    (rest : Bytes) where
  -- The text is read as a new node that holds the constant.
  pub record IsRead (c : Constant) : Type 0 where
    pub node : Ref
    pub trees : Store
    pub run :
        read_sexp max scan_real (suc (suc (suc f))) root (text c ++ rest) t ≡ ok (node, rest, trees)
    pub holds : Holds trees node c
    pub fresh : t.count < node
    pub grows : Grows t trees

  module _ (ready : t.initialized ≡ true) where
    abbrev tail : Bytes
    tail = b')' ∷ rest

    IsRead-boolean : (b : Bool) → IsRead (of_boolean b)
    unfolding read_symbol scan_int skip_space is_space sign starts_digit is_digit digits
    IsRead-boolean b =
        let (q, u, run, holds, new, grows) = boolean-roundtrip t ready b in
        record {
          node = q;
          trees = u;
          run =
              read_enclosed max scan_real 2 (suc f) root t u q
                (b' ' ∷ (if b then b'1' else b'0') ∷ []) rest (omega arith) refl
                (by_value b q u run);
          holds = (new.has_symbol, holds);
          fresh = new.fresh;
          grows = grows;
        }
      where
        by_value :
            (b : Bool) (q : Ref) (u : Store)
            → new_boolean b t ≡ ok (q, u)
            → read_symbol max scan_real
                (suc f)
                (pos 2)
                root
                (b' ' ∷ (if b then b'1' else b'0') ∷ tail)
                t
              ≡ ok (q, tail, u)
        by_value true q u run = rw run
        by_value false q u run = rw run

    IsRead-char : (c : ℕ) → c < 256 → IsRead (of_char c)
    unfolding read_symbol starts_digit is_digit
    IsRead-char c lt =
        let (q, u, run, holds, new, grows) = (constants-roundtrip t ready (pos 0) 0 c 0).2 in
        let scanned = (scan_int-print_int int_32 (int_of_char c) tail (ground arith) refl).1 in
        record {
          node = q;
          trees = u;
          run =
              read_enclosed max scan_real 3 (suc f) root t u q (b' ' ∷ print_int (int_of_char c))
                rest (omega arith) refl (rw (scanned, char_of_int-int_of_char c lt, run));
          holds = (new.has_symbol, holds);
          fresh = new.fresh;
          grows = grows;
        }

    IsRead-integer : (i : ℤ) → InRange max i → IsRead (of_integer i)
    unfolding read_symbol starts_digit is_digit
    IsRead-integer i fits =
        let (q, u, run, holds, new, grows) = (constants-roundtrip t ready i 0 0 0).0 in
        let scanned = (scan_int-print_int max i tail fits refl).1 in
        record {
          node = q;
          trees = u;
          run =
              read_enclosed max scan_real 4 (suc f) root t u q (b' ' ∷ print_int i) rest
                (omega arith) refl (rw (scanned, run));
          holds = (new.has_symbol, holds);
          fresh = new.fresh;
          grows = grows;
        }

    IsRead-set : (e : ℕ) → e ≤ 2 * max + 1 → IsRead (of_set e)
    unfolding read_symbol starts_digit is_digit
    IsRead-set e le =
        let (q, u, run, holds, new, grows) = (constants-roundtrip t ready (pos 0) 0 0 e).3 in
        record {
          node = q;
          trees = u;
          run =
              read_enclosed max scan_real 7 (suc f) root t u q (b' ' ∷ print_nat e) rest
                (omega arith) refl (rw (scan_unsigned-print_nat max e tail le refl, run));
          holds = (new.has_symbol, holds);
          fresh = new.fresh;
          grows = grows;
        }

    -- What `ReadSymbol` does with the text of a string.
    read_text :
        (b : Bytes) (q : Ref) (u : Store)
        → Fits max (of_string b)
        → new_string b t ≡ ok (q, u)
        → read_string (b' ' ∷ (string_body b ++ tail)) t ≡ ok (q, tail, u)
    unfolding read_string string_body skip_space is_space looking_at expect
    read_text [] q u h run = rw (append_assoc, scan_hex-print_hex 0 tail (omega arith), run)
    read_text (c ∷ []) q u (lo, hi) run =
        let nz : (c == 0) ≡ false = ground arith in
        let small : leb c 255 ≡ true = ground arith in
        rw (append_assoc, scan_hex-print_hex c tail hi, small, nz, run)
    read_text (c ∷ d ∷ b) q u h run = rw (append_assoc) (
        by_quoted (c ∷ d ∷ b ++ 34 ∷ tail) (c ∷ d ∷ b) q tail t u (quoted-text (c ∷ d ∷ b) tail h)
          run)

    IsRead-string_constant : (b : Bytes) → Fits max (of_string b) → IsRead (of_string b)
    unfolding read_symbol starts_digit is_digit
    IsRead-string_constant b h =
        let (q, u, run, holds, new, grows) = string_store-Makes t ready b in
        record {
          node = q;
          trees = u;
          run =
              read_enclosed max scan_real 6 (suc f) root t u q (b' ' ∷ string_body b) rest
                (omega arith) refl (read_text b q u h run);
          holds = (new.has_symbol, holds);
          fresh = new.fresh;
          grows = grows;
        }

    pub IsRead-text : (c : Constant) → Fits max c → IsRead c
    IsRead-text (of_boolean b) h = IsRead-boolean b
    IsRead-text (of_char c) h = IsRead-char c h
    IsRead-text (of_integer i) h = IsRead-integer i h
    IsRead-text (of_string b) h = IsRead-string_constant b h
    IsRead-text (of_set e) h = IsRead-set e h

-- For a node that holds a Boolean, character, integer, string or set constant that fits its type: it
-- is written as a text without a change of the trees, and from that text, in any initialized store
-- and before any rest of a file, a new node is read that holds the same constant, and no node made
-- before changes.
pub constant-roundtrip :
    (print_real : ℕ → Bytes) (max : ℕ) (scan_real : Bytes → Option (ℕ × Bytes)) (s t : Store)
    (p : Ref) (c : Constant) (f g : ℕ) (root : Bool) (m : MapOf Ref) (rest : Bytes)
    → Holds s p c
    → Fits max c
    → t.initialized ≡ true
    → (write print_real (suc f) p root s m ≡ ok (text c, s, m))
      × IsRead max scan_real g root t rest c
constant-roundtrip print_real max scan_real s t p c f g root m rest held fits ready = (
  write-text print_real s p c f root m held,
  IsRead-text max scan_real g root t rest ready c fits,
)
