-- ===== src/Csource/Symbols/Enums.antt =====
-- `absorb_enum` of native/src/csource/symbols.rs reads back an enumeration that is written out.
use click_doom.Base.{
  ℕ, ◌≡◌, Bool, true, false, Option, none, some, List, [], ◌∷◌, ◌++◌, All, Outcome,
}
use click_doom.Csource.{Text, ident, punct, Tok, Stop}
use click_doom.Csource.Table.{Pending, value, after, first, Symbols}
use click_doom.Csource.Symbols.{opens, closes, is_punct}

-- An enumerator: its name, and the tokens of its value if it has one.
abbrev pub Written : Type 0
Written = Text × Option (List Tok)

abbrev pub sign : ℕ → ℕ → Tok
sign line c = record { token = punct (c ∷ []); line = line }

abbrev pub name_tok : ℕ → Text → Tok
name_tok line n = record { token = ident n; line = line }

abbrev pub assigned : ℕ → Option (List Tok) → List Tok → List Tok
assigned line none rest = rest
assigned line (some v) rest = sign line b'=' ∷ (v ++ rest)

-- What follows an enumerator: a comma and the next one, or the closing brace, before which there may
-- be a comma.
unfoldable pub following : ℕ → Bool → List Written → List Tok → List Tok
following line true [] rest = sign line b',' ∷ sign line b'}' ∷ rest
following line false [] rest = sign line b'}' ∷ rest
following line trailing ((n, v) ∷ es) rest =
    sign line b',' ∷ name_tok line n ∷ assigned line v (following line trailing es rest)

abbrev pub tagged : ℕ → Option Text → List Tok → List Tok
tagged line none rest = rest
tagged line (some n) rest = name_tok line n ∷ rest

-- `tag { name = value, name, … } rest`, after `enum`.
abbrev pub written : ℕ → Option Text → Bool → Written → List Written → List Tok → List Tok
written line tag trailing (n, v) es rest =
    tagged line tag
      (sign line b'{' ∷ name_tok line n ∷ assigned line v (following line trailing es rest))

-- What each enumerator means: its value, or one more than the one before it, or 0 for the first.
abbrev pub meaning : Text → Option Text → Option (List Tok) → Pending
meaning file previous (some v) = value file v
meaning file none none = first
meaning file (some before) none = after before

unfoldable pub meanings : Text → Option Text → List Written → List (Text × Pending)
meanings file previous [] = []
meanings file previous ((n, v) ∷ es) = (n, meaning file previous v) ∷ meanings file (some n) es

abbrev pub also : Symbols → List (Text × Pending) → Symbols
also s more = record { values = s.values; ambiguous = s.ambiguous; pending = s.pending ++ more }

-- A token that is no bracket and does not end a value.
abbrev pub IsPlain : Tok → Type 0
IsPlain t =
    (opens t.token ≡ false)
    × (closes t.token ≡ false)
    × (is_punct (b'}' ∷ []) t.token ≡ false)
    × (is_punct (b',' ∷ []) t.token ≡ false)

abbrev pub PlainValue : Written → Type 0
PlainValue (n, none) = Unit
PlainValue (n, some v) = All IsPlain v

abbrev Again : Type 0
Again = Option Text → Symbols → List Tok → Outcome Stop (Symbols × List Tok)
