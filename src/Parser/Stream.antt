-- ===== src/Parser/Stream.antt =====
-- `Peek`, `Advance`, `Check`, `Match` and `Expect` of parser/parser.hpp and parser.cpp. The parser is the
-- list of the tokens that are left. The last is the end of the input, which the parser never advances
-- over; `Peek` of an empty list is never reached and is the end too.
use database_engine.Base.{
  ℕ, zero, suc, ◌≡◌, ap, Bool, true, false, List, [], ◌∷◌, if◌then◌else◌, length, drop,
}
use database_engine.Util.Status.{Result, ok, err, invalid_argument, corruption}
use database_engine.Parser.Token.{k_comma, k_end_of_input, TokenType, same_type, Token}

abbrev pub Parsing : Type 0 → Type 0
Parsing A = List Token → Result (A × List Token)

abbrev pub go_on :
    {A B : Type 0} → Result (A × List Token) → (A → Parsing B) → Result (B × List Token)
go_on (err code) f = err code
go_on (ok found) f = f found.0 found.1

infixl 5 ◌>>=◌ ◌>>◌
abbrev pub ◌>>=◌ : {A B : Type 0} → Parsing A → (A → Parsing B) → Parsing B
◌>>=◌ m f ts = go_on (m ts) f

-- What follows a step that succeeds.
pub >>=-parsed :
    {A B : Type 0} (m : Parsing A) (f : A → Parsing B) (ts : List Token) (a : A) (rest : List Token)
    → m ts ≡ ok (a, rest)
    → (m >>= f) ts ≡ f a rest
>>=-parsed m f ts a rest e = ap (λ r. go_on r f) e

abbrev pub ◌>>◌ : {A B : Type 0} → Parsing A → Parsing B → Parsing B
m >> k = m >>= λ _. k

abbrev pub parsed : {A : Type 0} → A → Parsing A
parsed a ts = ok (a, ts)

abbrev pub refused : {A : Type 0} → Parsing A
refused ts = err invalid_argument

abbrev pub type_of : List Token → TokenType
type_of [] = k_end_of_input
type_of (t ∷ ts) = t.type

abbrev pub lexeme_of : List Token → List ℕ
lexeme_of [] = []
lexeme_of (t ∷ ts) = t.lexeme

-- `Check`.
unfoldable pub check : TokenType → List Token → Bool
unfolding same_type
check t ts = same_type (type_of ts) t

-- `Advance`, with the lexeme.
abbrev pub advance : Parsing (List ℕ)
advance ts = ok (lexeme_of ts, drop 1 ts)

-- `Match`.
unfoldable pub match_token : TokenType → Parsing Bool
unfolding check
match_token t ts = if check t ts then ok (true, drop 1 ts) else ok (false, ts)

unfoldable pub expect : TokenType → Parsing (Unit {0})
unfolding check
expect t ts = if check t ts then ok (tt, drop 1 ts) else err invalid_argument

-- `if (!Check(t)) return InvalidArgument(...); Advance().lexeme`.
unfoldable pub lexeme : TokenType → Parsing (List ℕ)
unfolding check
lexeme t ts = if check t ts then ok (lexeme_of ts, drop 1 ts) else err invalid_argument

-- `do { item } while (Match(kComma))`. Each turn but the first takes a comma, so the number of the
-- tokens is enough fuel; `corruption`, which the parser never answers, marks its end.
unfoldable pub comma_list_from : {A : Type 0} → ℕ → Parsing A → Parsing (List A)
unfolding match_token
comma_list_from zero item ts = err corruption
comma_list_from (suc fuel) item ts =
    (item >>= λ first. match_token k_comma >>= λ more. elim more [
      | false ↦ parsed (first ∷ [])
      | true ↦ (comma_list_from fuel item >>= λ later. parsed (first ∷ later))
    ])
      ts

unfoldable pub comma_list : {A : Type 0} → Parsing A → Parsing (List A)
unfolding comma_list_from
comma_list item ts = comma_list_from (suc (length ts)) item ts
