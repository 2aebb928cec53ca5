-- ===== src/Csource.antt =====
-- native/src/csource: the reader of the engine's C tables. A text is the list of its code points, and
-- the cursor is what is left of it: the source's byte offsets are always at the start of a character,
-- or the slice that moves them panics. An `i64` is kept as its bit pattern.
pub mod Chars
pub mod Lex
pub mod Table
pub mod Expr
pub mod Symbols
pub mod Init
use click_doom.Base.{ℕ, List}
pub use click_doom.Base.{and_then}
use Prim.Native.String.{String}

abbrev pub Text : Type 0
Text = List ℕ

pub data Token : Type 0 where
  ident : Text → Token
  int : ℕ → Token
  str : Text → Token
  punct : Text → Token
  directive : Text → Token

pub record Tok : Type 0 where
  pub token : Token
  pub line : ℕ

-- What an error says it found: `describe` of a token, which is kept whole, or the other texts.
pub data Found : Type 0 where
  found : Token → Found
  end_of_expression : Found
  braced_list : Found
  empty_initializer : Found

-- All variants but the two of reading and writing files.
pub data CError : Type 0 where
  unterminated : Text → ℕ → String → CError
  bad_number : Text → ℕ → Text → CError
  unknown_symbol : Text → ℕ → Text → CError
  expected : Text → ℕ → String → Found → CError
  ambiguous : Text → ℕ → Text → CError
  no_array : Text → Text → CError
  no_enum : Text → Text → CError
  too_many_entries : Text → Text → ℕ → ℕ → CError
  no_struct : Text → Text → CError
  struct_shape : Text → Text → List Text → List Text → CError

-- Why a loop on fuel stops: with an error of the source, or for want of fuel.
pub data Stop : Type 0 where
  stopped : CError → Stop
  no_fuel : Stop
