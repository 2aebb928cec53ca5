-- ===== src/Examples/Tables.antt =====
-- A small C source with a definition, an enumeration, a struct and a table.
use Prim.Native.Char.{code}
use Prim.Native.String.{String}
use click_doom.Base.{ℕ, ◌^◌, ◌≡◌, refl, none, some, List, [], ◌∷◌, ok, err, panic, Outcome}
use click_doom.Csource.{Text, Token, int, punct, unknown_symbol, stopped, Tok, Stop}
use click_doom.Csource.Lex.{
  lex, run, skip_trivia, token_at, read_ident, read_number, bump, read_punct, bump_byte,
}
use click_doom.Csource.Lex.Tokens.{Lexed, lex-Lexed}
use click_doom.Csource.Table.{Symbols, define, get, is_ambiguous}
use click_doom.Csource.Expr.{eval, binary, unary, operators, apply}
use click_doom.Csource.Expr.Refine.{Evaluates, eval-Evaluates}
use click_doom.Csource.Symbols.{new, resolve}
use click_doom.Csource.Symbols.Enums.{Written}
use click_doom.Csource.Symbols.Resolve.{Resolved, resolve-Resolved}
use click_doom.Csource.Symbols.Laws.{Separate}
use click_doom.Csource.Init.{Ctx, read_bounds, bound_value, find_array}
use click_doom.Csource.Init.Structs.{struct_fields, field_names, check_struct}
use click_doom.Csource.Init.Arrays.{Finds, find_array-Finds}
use click_doom.Csource.Init.Ints.{check_struct-ok}

abbrev codes : String → Text
codes String.[] = []
codes (String.◌∷◌ c s) = code c ∷ codes s

abbrev file : Text
file = codes "t.c"

abbrev source : Text
source = codes "#define W 2\nenum { a = 4, b };\nint row[2] = { W | 0x10, -b };"

abbrev at : Token → ℕ → Tok
at token line = record { token = token; line = line }

-- 2 * (3 + 4)
abbrev product : List Tok
product =
    at (int 2) 1
    ∷ at (punct (codes "*")) 1
    ∷ at (punct (codes "(")) 1
    ∷ at (int 3) 1
    ∷ at (punct (codes "+")) 1
    ∷ at (int 4) 1
    ∷ at (punct (codes ")")) 1
    ∷ []

abbrev tokens_of : Outcome Stop (List Tok) → List Tok
tokens_of (ok toks) = toks
tokens_of (err e) = []
tokens_of panic = []

abbrev toks : List Tok
toks = tokens_of (lex file source)

abbrev waiting : Symbols
waiting = record {
  values = [];
  ambiguous = [];
  pending = (codes "A", define file (codes "B + 1")) ∷ (codes "B", define file (codes "1")) ∷ [];
}

waiting-Separate : Separate waiting
unfolding is_ambiguous get
waiting-Separate n h = refl

lex-Lexed_example : Lexed source (lex file source)
lex-Lexed_example = lex-Lexed file source

eval-Evaluates_example : Evaluates new product (eval file product new)
eval-Evaluates_example = eval-Evaluates file product new

-- b = 2 + 3
abbrev sum : List Tok
sum = at (int 2) 1 ∷ at (punct (codes "+")) 1 ∷ at (int 3) 1 ∷ []

abbrev letters : List Written
letters = (codes "b", some sum) ∷ (codes "c", none) ∷ []

resolve-Resolved_example : Resolved waiting (resolve waiting)
resolve-Resolved_example = resolve-Resolved waiting waiting-Separate

abbrev context : Ctx
context = record { file = file; symbols = new }

find_array-Finds_example : Finds (find_array context (codes "row") toks)
find_array-Finds_example = find_array-Finds context (codes "row") toks

-- typedef struct { int x; int y[2]; } pair;
abbrev struct_toks : List Tok
struct_toks = tokens_of (lex file (codes "typedef struct { int x; int y[2]; } pair;"))

abbrev fields : List Text
fields = codes "x" ∷ codes "y" ∷ []

product_value : eval file product new ≡ ok 14
unfolding eval binary unary operators apply
product_value = refl

names_read : struct_fields context struct_toks (codes "pair") ≡ ok fields
unfolding struct_fields lex run skip_trivia token_at read_ident bump read_punct bump_byte
    read_number
names_read = refl

same_shape : check_struct context struct_toks (codes "pair") fields ≡ ok tt
same_shape = (check_struct-ok context struct_toks (codes "pair") fields).1 names_read

-- An identifier for a bound is taken for a second field.
bound_is_a_field :
    field_names none (tokens_of (lex file (codes "char x[MAX];"))) ≡ codes "x" ∷ codes "MAX" ∷ []
unfolding lex run skip_trivia token_at read_ident bump read_punct bump_byte
bound_is_a_field = refl

-- A subscript that is no constant ends the search before the declaration.
subscript_ends_search :
    find_array context (codes "row") (tokens_of (lex file (codes "row[i]=0; int row[1]={1};")))
    ≡ err (stopped (unknown_symbol file 1 (codes "i")))
unfolding find_array lex run skip_trivia token_at read_ident bump read_punct bump_byte read_number
    read_bounds bound_value eval binary unary get new is_ambiguous
subscript_ends_search = refl

accent_panics : lex file (0xE9 ∷ []) ≡ panic
unfolding lex run skip_trivia token_at read_punct bump_byte
accent_panics = refl

smallest_negated : eval file (at (punct (codes "-")) 1 ∷ at (int (2 ^ 63)) 1 ∷ []) new ≡ panic
unfolding eval binary unary operators apply
smallest_negated = refl
