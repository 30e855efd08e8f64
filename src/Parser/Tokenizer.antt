-- ===== src/Parser/Tokenizer.antt =====
-- parser/lexer.hpp, tokenizer.hpp and tokenizer.cpp. The lexer is the text that is left; its characters are
-- bytes. `toupper` is that of the C locale.
pub mod Quotes
pub mod Progress
use database_engine.Base.{
  ℕ, zero, suc, ◌+◌, ◌-◌, ◌*◌, ◌/◌, ◌%◌, ◌^◌, ◌≤◌, ◌<◌, ◌≡◌, refl, sym, ap, ◌∙◌, fun_ext, subst,
  ◌≢◌, ◌↔◌, ◌⊎◌, inl, inr, Bool, true, false, not, ◌&&◌, ◌||◌, Option, none, some, List, [], ◌∷◌,
  ◌++◌, map, append_assoc, append-nil, arith, ltb, leb, ◌==◌, if◌then◌else◌, ltb→lt, lt→ltb, le→ltb,
  leb→le, ==_iff, Bool-cases, Option-cases, lt-or-le, length, get_elem?, set, get_or, take, drop,
  replicate, All, length-append, length-replicate, take_append, drop_append, length-take,
  length-drop, length-set, get_elem?-set_self, get_elem?-set_ne,
}
use database_engine.Util.Status.{Result, ok, err, invalid_argument, corruption, ◌>>=◌}
use database_engine.Common.Schema.{same_bytes}
use database_engine.Parser.Token.{
  k_and, k_as, k_asc, k_avg, k_bigint, k_boolean, k_by, k_comma, k_count, k_create, k_delete,
  k_desc, k_dot, k_double, k_drop, k_end_of_input, k_eq, k_false, k_float_literal, k_from, k_gt,
  k_gte, k_identifier, k_index, k_insert, k_int, k_int_literal, k_into, k_invalid, k_limit,
  k_lparen, k_lt, k_lte, k_max, k_min, k_neq, k_not, k_null, k_on, k_or, k_order, k_rparen,
  k_select, k_semicolon, k_set, k_star, k_string_literal, k_sum, k_table, k_true, k_update,
  k_values, k_varchar, k_where, TokenType, number, same_type, Token, token,
}

abbrev pub is_digit : ℕ → Bool
is_digit c = leb 48 c && leb c 57

abbrev pub is_alpha : ℕ → Bool
is_alpha c = ((leb 97 c && leb c 122) || (leb 65 c && leb c 90)) || c == 95

abbrev pub is_alphanumeric : ℕ → Bool
is_alphanumeric c = is_alpha c || is_digit c

abbrev pub is_whitespace : ℕ → Bool
is_whitespace c = ((c == 32 || c == 9) || c == 13) || c == 10

-- `Peek`, which is 0 at the end.
abbrev pub peek : List ℕ → ℕ
peek [] = 0
peek (c ∷ cs) = c

-- In a comment, or not: a comment ends before the line's end, which is white space.
unfoldable pub skip : Bool → List ℕ → List ℕ
skip in_comment [] = []
skip true (c ∷ cs) = elim (c == 10) [ true ↦ skip false cs | false ↦ skip true cs ]
skip false (c ∷ cs) = elim (is_whitespace c) [
  | true ↦ skip false cs
  | false ↦ elim (c == 45 && peek cs == 45) [ true ↦ skip true cs | false ↦ c ∷ cs ]
]

unfoldable pub skip_whitespace_and_comments : List ℕ → List ℕ
unfolding skip
skip_whitespace_and_comments cs = skip false cs

-- `while (!AtEnd() && test(Peek())) lexeme.push_back(Advance())`: the lexeme and what is left.
unfoldable pub take_while : (ℕ → Bool) → List ℕ → List ℕ × List ℕ
take_while test [] = ([], [])
take_while test (c ∷ cs) = elim (test c) [
  | false ↦ ([], c ∷ cs)
  | true ↦ let (lexeme, left) = take_while test cs in (c ∷ lexeme, left)
]

-- The fraction behind the digits, if there is one.
unfoldable pub scan_fraction : List ℕ → List ℕ → Token × List ℕ
unfolding take_while
scan_fraction digits (dot ∷ d ∷ cs) =
    if dot == 46 && is_digit d
    then (let (fraction, left) = take_while is_digit (d ∷ cs) in
        (token k_float_literal (digits ++ dot ∷ fraction), left))
    else (token k_int_literal digits, dot ∷ d ∷ cs)
scan_fraction digits cs = (token k_int_literal digits, cs)

unfoldable pub scan_number : List ℕ → Token × List ℕ
unfolding scan_fraction
scan_number cs = let (digits, left) = take_while is_digit cs in scan_fraction digits left

-- The loop of `ScanString`, behind the opening quote: a quote stands for the end, two for one.
unfoldable pub string_body : List ℕ → Result (List ℕ × List ℕ)
string_body [] = err invalid_argument
string_body (c ∷ []) = if c == 39 then ok ([], []) else err invalid_argument
string_body (c ∷ d ∷ cs) = elim (c == 39) [
  | false ↦ (string_body (d ∷ cs) >>= λ found. ok (c ∷ found.0, found.1))
  | true ↦ elim (d == 39) [
    | true ↦ (string_body cs >>= λ found. ok (39 ∷ found.0, found.1))
    | false ↦ ok ([], d ∷ cs)
  ]
]

unfoldable pub scan_string : List ℕ → Result (Token × List ℕ)
unfolding string_body
scan_string cs = string_body (drop 1 cs) >>= λ found. ok (token k_string_literal found.0, found.1)

abbrev pub upper : ℕ → ℕ
upper c = if leb 97 c && leb c 122 then c - 32 else c

unfoldable pub to_upper : List ℕ → List ℕ
to_upper [] = []
to_upper (c ∷ cs) = upper c ∷ to_upper cs

-- Each keyword by its characters' codes.
abbrev pub keyword_table : List (List ℕ × TokenType)
keyword_table =
    ((83 ∷ 69 ∷ 76 ∷ 69 ∷ 67 ∷ 84 ∷ []), k_select)
    ∷ ((70 ∷ 82 ∷ 79 ∷ 77 ∷ []), k_from)
    ∷ ((87 ∷ 72 ∷ 69 ∷ 82 ∷ 69 ∷ []), k_where)
    ∷ ((73 ∷ 78 ∷ 83 ∷ 69 ∷ 82 ∷ 84 ∷ []), k_insert)
    ∷ ((73 ∷ 78 ∷ 84 ∷ 79 ∷ []), k_into)
    ∷ ((86 ∷ 65 ∷ 76 ∷ 85 ∷ 69 ∷ 83 ∷ []), k_values)
    ∷ ((85 ∷ 80 ∷ 68 ∷ 65 ∷ 84 ∷ 69 ∷ []), k_update)
    ∷ ((83 ∷ 69 ∷ 84 ∷ []), k_set)
    ∷ ((68 ∷ 69 ∷ 76 ∷ 69 ∷ 84 ∷ 69 ∷ []), k_delete)
    ∷ ((67 ∷ 82 ∷ 69 ∷ 65 ∷ 84 ∷ 69 ∷ []), k_create)
    ∷ ((84 ∷ 65 ∷ 66 ∷ 76 ∷ 69 ∷ []), k_table)
    ∷ ((68 ∷ 82 ∷ 79 ∷ 80 ∷ []), k_drop)
    ∷ ((79 ∷ 82 ∷ 68 ∷ 69 ∷ 82 ∷ []), k_order)
    ∷ ((66 ∷ 89 ∷ []), k_by)
    ∷ ((65 ∷ 83 ∷ 67 ∷ []), k_asc)
    ∷ ((68 ∷ 69 ∷ 83 ∷ 67 ∷ []), k_desc)
    ∷ ((76 ∷ 73 ∷ 77 ∷ 73 ∷ 84 ∷ []), k_limit)
    ∷ ((65 ∷ 78 ∷ 68 ∷ []), k_and)
    ∷ ((79 ∷ 82 ∷ []), k_or)
    ∷ ((78 ∷ 79 ∷ 84 ∷ []), k_not)
    ∷ ((78 ∷ 85 ∷ 76 ∷ 76 ∷ []), k_null)
    ∷ ((84 ∷ 82 ∷ 85 ∷ 69 ∷ []), k_true)
    ∷ ((70 ∷ 65 ∷ 76 ∷ 83 ∷ 69 ∷ []), k_false)
    ∷ ((65 ∷ 83 ∷ []), k_as)
    ∷ ((73 ∷ 78 ∷ 68 ∷ 69 ∷ 88 ∷ []), k_index)
    ∷ ((79 ∷ 78 ∷ []), k_on)
    ∷ ((73 ∷ 78 ∷ 84 ∷ []), k_int)
    ∷ ((73 ∷ 78 ∷ 84 ∷ 69 ∷ 71 ∷ 69 ∷ 82 ∷ []), k_int)
    ∷ ((66 ∷ 73 ∷ 71 ∷ 73 ∷ 78 ∷ 84 ∷ []), k_bigint)
    ∷ ((68 ∷ 79 ∷ 85 ∷ 66 ∷ 76 ∷ 69 ∷ []), k_double)
    ∷ ((66 ∷ 79 ∷ 79 ∷ 76 ∷ 69 ∷ 65 ∷ 78 ∷ []), k_boolean)
    ∷ ((66 ∷ 79 ∷ 79 ∷ 76 ∷ []), k_boolean)
    ∷ ((86 ∷ 65 ∷ 82 ∷ 67 ∷ 72 ∷ 65 ∷ 82 ∷ []), k_varchar)
    ∷ ((84 ∷ 69 ∷ 88 ∷ 84 ∷ []), k_varchar)
    ∷ ((67 ∷ 79 ∷ 85 ∷ 78 ∷ 84 ∷ []), k_count)
    ∷ ((83 ∷ 85 ∷ 77 ∷ []), k_sum)
    ∷ ((65 ∷ 86 ∷ 71 ∷ []), k_avg)
    ∷ ((77 ∷ 73 ∷ 78 ∷ []), k_min)
    ∷ ((77 ∷ 65 ∷ 88 ∷ []), k_max)
    ∷ []

-- `keywords.find(word)`, or `kIdentifier`.
unfoldable pub keyword_in : List (List ℕ × TokenType) → List ℕ → TokenType
unfolding same_bytes
keyword_in [] word = k_identifier
keyword_in (entry ∷ table) word = elim (same_bytes entry.0 word) [
  | true ↦ entry.1
  | false ↦ keyword_in table word
]

unfoldable pub scan_identifier_or_keyword : List ℕ → Token × List ℕ
unfolding keyword_in to_upper take_while
scan_identifier_or_keyword cs =
    let (lexeme, left) = take_while is_alphanumeric cs in
    (token (keyword_in keyword_table (to_upper lexeme)) lexeme, left)

unfoldable pub scan_operator_or_punctuation : List ℕ → Token × List ℕ
scan_operator_or_punctuation [] = (token k_invalid [], [])
scan_operator_or_punctuation (c ∷ cs) =
    if c == 42
    then (token k_star (c ∷ []), cs)
    else if c == 44
    then (token k_comma (c ∷ []), cs)
    else if c == 40
    then (token k_lparen (c ∷ []), cs)
    else if c == 41
    then (token k_rparen (c ∷ []), cs)
    else if c == 59
    then (token k_semicolon (c ∷ []), cs)
    else if c == 46
    then (token k_dot (c ∷ []), cs)
    else if c == 61
    then (token k_eq (c ∷ []), cs)
    else if c == 33
    then (if peek cs == 61
        then (token k_neq (c ∷ 61 ∷ []), drop 1 cs)
        else (token k_invalid (c ∷ []), cs))
    else if c == 60
    then (if peek cs == 61
        then (token k_lte (c ∷ 61 ∷ []), drop 1 cs)
        else if peek cs == 62
        then (token k_neq (c ∷ 62 ∷ []), drop 1 cs)
        else (token k_lt (c ∷ []), cs))
    else if c == 62
    then (if peek cs == 61
        then (token k_gte (c ∷ 61 ∷ []), drop 1 cs)
        else (token k_gt (c ∷ []), cs))
    else (token k_invalid (c ∷ []), cs)

-- `NextToken` on text without white space in front.
unfoldable pub scan : List ℕ → Result (Token × List ℕ)
unfolding same_type
scan [] = ok (token k_end_of_input [], [])
scan (c ∷ cs) =
    if is_digit c
    then ok (scan_number (c ∷ cs))
    else if is_alpha c
    then ok (scan_identifier_or_keyword (c ∷ cs))
    else if c == 39
    then scan_string (c ∷ cs)
    else (let found = scan_operator_or_punctuation (c ∷ cs) in
        if same_type found.0.type k_invalid then err invalid_argument else ok found)

unfoldable pub next_token : List ℕ → Result (Token × List ℕ)
unfolding scan
next_token cs = scan (skip_whitespace_and_comments cs)

-- `TokenizeAll`. A token that is not the end takes a character or more, so one more than the length of
-- the text is enough fuel; `corruption`, which the tokenizer never answers, marks its end.
unfoldable pub tokenize_from : ℕ → List ℕ → Result (List Token)
unfolding next_token same_type
tokenize_from zero cs = err corruption
tokenize_from (suc fuel) cs = next_token cs >>= λ found.
    elim (same_type found.0.type k_end_of_input) [
      | true ↦ ok (found.0 ∷ [])
      | false ↦ (tokenize_from fuel found.1 >>= λ tokens. ok (found.0 ∷ tokens))
    ]

unfoldable pub tokenize_all : List ℕ → Result (List Token)
unfolding tokenize_from
tokenize_all cs = tokenize_from (suc (length cs)) cs
