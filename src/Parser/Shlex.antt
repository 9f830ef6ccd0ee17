-- ===== src/Parser/Shlex.antt =====
-- Python's `shlex.split`: the words of a text, with quotes and escapes.
use Prim.Native.Char.{Char, code}
use computational_governance.Prelude.{
  String, Bool, true, false, ◌&&◌, ◌||◌, not, List, [], ◌∷◌, ◌++◌, if◌then◌else◌, ◌==◌, ◌<>◌, eqb,
}
use computational_governance.Errors.{value_error, Try, ok, raise}

-- Between words, in a word, in quotes, or behind an escape in what the state was.
pub data Mode : Type 0 where
  between word single double escaped escaped_double : Mode

-- `current` is the word that is read, `quoted` whether quotes were in it.
pub record Lexer : Type 0 where
  pub mode : Mode
  pub current : String
  pub quoted : Bool
  pub words : List String

abbrev pub is_gap : Char → Bool
is_gap c = eqb (code c) 32 || (eqb (code c) 9 || (eqb (code c) 13 || eqb (code c) 10))

abbrev one : Char → String
one c = String.◌∷◌ c ""

abbrev put_char : Lexer → Char → Lexer
put_char self c = record self { mode = word; current = self.current <> one c }

-- The word ends, unless it is empty and had no quotes.
abbrev end_word : Lexer → Lexer
end_word self =
    if self.current == "" && not self.quoted then record self { mode = between } else record {
      mode = between;
      current = "";
      quoted = false;
      words = self.words ++ self.current ∷ [];
    }

abbrev to_mode : Lexer → Mode → Lexer
to_mode self m = record self { mode = m }

-- Outside of quotes.
abbrev read_plain : Lexer → Char → Lexer
read_plain self c =
    if is_gap c
    then end_word self
    else if eqb (code c) 92
    then to_mode self escaped
    else if eqb (code c) 39
    then to_mode self single
    else if eqb (code c) 34
    then to_mode self double
    else put_char self c

-- A character in quotes, which quotes end.
abbrev read_quoted : Lexer → Char → Mode → Bool → Lexer
read_quoted self c m ends =
    if ends
    then record self { mode = word; quoted = true }
    else record self { mode = m; current = self.current <> one c; quoted = true }

abbrev pub read_char : Mode → Lexer → Char → Lexer
read_char between self c = read_plain self c
read_char word self c = read_plain self c
read_char single self c = read_quoted self c single (eqb (code c) 39)
read_char double self c =
    if eqb (code c) 92
    then record self { mode = escaped_double; quoted = true }
    else read_quoted self c double (eqb (code c) 34)
read_char escaped self c = put_char self c
read_char escaped_double self c =
    if eqb (code c) 92 || eqb (code c) 34
    then record self { mode = double; current = self.current <> one c }
    else record self { mode = double; current = self.current <> "\\" <> one c }

unfoldable pub read_all : Lexer → String → Lexer
read_all self String.[] = self
read_all self (String.◌∷◌ c s) = read_all (read_char self.mode self c) s

abbrev finish : Mode → Lexer → Try (List String)
finish single self = raise (value_error "No closing quotation")
finish double self = raise (value_error "No closing quotation")
finish escaped self = raise (value_error "No escaped character")
finish escaped_double self = raise (value_error "No escaped character")
finish _ self = ok (end_word self).words

abbrev start : Lexer
start = record { mode = between; current = ""; quoted = false; words = [] }

-- `shlex.split(s)`
unfoldable pub shell_split : String → Try (List String)
unfolding read_all
shell_split s = let last = read_all start s in finish last.mode last
