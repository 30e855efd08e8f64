-- ===== src/Parser/Tokenizer/Progress.antt =====
-- The tokenizer of parser/tokenizer.cpp takes a character or more for each token, so it ends.
use database_engine.Base.{
  ℕ, zero, suc, ◌≤◌, ◌<◌, ◌≡◌, refl, sym, ap, ◌∙◌, ◌⊎◌, inl, inr, Bool, true, false, List, [], ◌∷◌,
  arith, ◌==◌, Bool-cases, length,
}
use database_engine.Util.Status.{Result, ok, err, invalid_argument, ◌>>=◌}
use database_engine.Parser.Token.{k_end_of_input, k_invalid, Token, token, number, same_type}
use database_engine.Parser.Tokenizer.{
  is_digit, is_alpha, is_alphanumeric, skip, skip_whitespace_and_comments, take_while,
  scan_fraction, scan_number, string_body, scan_string, scan_identifier_or_keyword,
  scan_operator_or_punctuation, scan, next_token, tokenize_from, tokenize_all,
}

length-skip : (in_comment : Bool) (cs : List ℕ) → length (skip in_comment cs) ≤ length cs
unfolding skip
length-skip true [] = omega arith
length-skip false [] = omega arith
length-skip true (c ∷ cs) = ground (arith, length-skip true cs, length-skip false cs)
length-skip false (c ∷ cs) = ground (arith, length-skip true cs, length-skip false cs)

length-take_while : (test : ℕ → Bool) (cs : List ℕ) → length (take_while test cs).1 ≤ length cs
unfolding take_while
length-take_while test [] = omega arith
length-take_while test (c ∷ cs) = ground (arith, length-take_while test cs)

length-take_while_more :
    (test : ℕ → Bool) (c : ℕ) (cs : List ℕ)
    → test c ≡ true
    → length (take_while test (c ∷ cs)).1 ≤ length cs
unfolding take_while
length-take_while_more test c cs h = ground (arith, h, length-take_while test cs)

length-scan_fraction : (digits cs : List ℕ) → length (scan_fraction digits cs).1 ≤ length cs
unfolding scan_fraction
length-scan_fraction digits [] = omega arith
length-scan_fraction digits (dot ∷ []) = omega arith
length-scan_fraction digits (dot ∷ d ∷ cs) = ground (arith, length-take_while is_digit (d ∷ cs))

length-scan_operator_or_punctuation :
    (c : ℕ) (cs : List ℕ) → length (scan_operator_or_punctuation (c ∷ cs)).1 ≤ length cs
unfolding scan_operator_or_punctuation
length-scan_operator_or_punctuation c [] = ground arith
length-scan_operator_or_punctuation c (d ∷ cs) = ground arith

-- A refusal, or a result with at most `n` characters left.
abbrev Shrinks : (A : Type 0) → ℕ → Result (A × List ℕ) → Type 0
Shrinks A n r =
    (r ≡ err invalid_argument)
    ⊎ ((a : A) × (rest : List ℕ) × (r ≡ ok (a, rest)) × (length rest ≤ n))

Shrinks-more :
    (A B : Type 0) (f : A → B) (n k : ℕ) (r : Result (A × List ℕ))
    → n ≤ k
    → Shrinks A n r
    → Shrinks B k (r >>= λ found. ok (f found.0, found.1))
Shrinks-more A B f n k r l (inl e) = inl (rw e refl)
Shrinks-more A B f n k r l (inr (a, rest, e, small)) = inr (f a, rest, rw e refl, omega arith)

string_body_turn :
    (c d : ℕ) (cs : List ℕ)
    → Shrinks (List ℕ) (length cs) (string_body (d ∷ cs))
    → Shrinks (List ℕ) (length cs) (string_body cs)
    → Shrinks (List ℕ) (length (d ∷ cs)) (string_body (c ∷ d ∷ cs))
unfolding string_body
string_body_turn c d cs one two = elim (Bool-cases (c == 39)) [
  | inr plain ↦
      rw (string_body, plain)
        (Shrinks-more (List ℕ) (List ℕ) (λ v. c ∷ v) (length cs) (suc (length cs)) _ (omega arith)
          one)
  | inl quote ↦ elim (Bool-cases (d == 39)) [
    | inl pair ↦
        rw (string_body, quote, pair)
          (Shrinks-more (List ℕ) (List ℕ) (λ v. 39 ∷ v) (length cs) (suc (length cs)) _
            (omega arith) two)
    | inr end ↦ inr ([], d ∷ cs, rw (string_body, quote, end) refl, omega arith)
  ]
]

string_body_last : (c : ℕ) → Shrinks (List ℕ) 0 (string_body (c ∷ []))
unfolding string_body
string_body_last c = elim (Bool-cases (c == 39)) [
  | inl quote ↦ inr ([], [], rw (string_body, quote) refl, omega arith)
  | inr plain ↦ inl (rw (string_body, plain) refl)
]

string_body_none : string_body [] ≡ err invalid_argument
unfolding string_body
string_body_none = refl

weaker :
    (n k : ℕ) (r : Result (List ℕ × List ℕ)) → n ≤ k → Shrinks (List ℕ) n r → Shrinks (List ℕ) k r
weaker n k r l (inl e) = inl e
weaker n k r l (inr (a, rest, e, small)) = inr (a, rest, e, omega arith)

string_body-Shrinks : (c : ℕ) (cs : List ℕ) → Shrinks (List ℕ) (length cs) (string_body (c ∷ cs))
string_body-Shrinks c [] = string_body_last c
string_body-Shrinks c (d ∷ []) =
    string_body_turn c d [] (string_body-Shrinks d []) (inl string_body_none)
string_body-Shrinks c (d ∷ e ∷ cs) =
    string_body_turn c d (e ∷ cs) (string_body-Shrinks d (e ∷ cs))
      (weaker (length cs) (suc (length cs)) _ (omega arith) (string_body-Shrinks e cs))

scan_string_cut : (c : ℕ) → scan_string (c ∷ []) ≡ err invalid_argument
unfolding scan_string string_body
scan_string_cut c = refl

scan_string-Shrinks : (c : ℕ) (cs : List ℕ) → Shrinks Token (length cs) (scan_string (c ∷ cs))
unfolding scan_string
scan_string-Shrinks c [] = inl (scan_string_cut c)
scan_string-Shrinks c (d ∷ cs) =
    Shrinks-more (List ℕ) Token _ (length cs) (suc (length cs)) (string_body (d ∷ cs)) (omega arith)
      (string_body-Shrinks d cs)

scan-Shrinks : (c : ℕ) (cs : List ℕ) → Shrinks Token (length cs) (scan (c ∷ cs))
unfolding scan
scan-Shrinks c cs = elim (Bool-cases (is_digit c)) [
  | inl digit ↦ inr (
    (scan_number (c ∷ cs)).0,
    (scan_number (c ∷ cs)).1,
    rw (scan, digit) refl,
    unfold scan_number in
        omega (
          arith,
          length-take_while_more is_digit c cs digit,
          length-scan_fraction (take_while is_digit (c ∷ cs)).0 (take_while is_digit (c ∷ cs)).1,
        ),
  )
  | inr no_digit ↦ elim (Bool-cases (is_alpha c)) [
    | inl letter ↦ inr (
      (scan_identifier_or_keyword (c ∷ cs)).0,
      (scan_identifier_or_keyword (c ∷ cs)).1,
      rw (scan, no_digit, letter) refl,
      unfold scan_identifier_or_keyword in
          length-take_while_more is_alphanumeric c cs (rw letter refl),
    )
    | inr no_letter ↦ elim (Bool-cases (c == 39)) [
      | inl quote ↦ rw (scan, no_digit, no_letter, quote) (scan_string-Shrinks c cs)
      | inr no_quote ↦
          elim (Bool-cases (same_type (scan_operator_or_punctuation (c ∷ cs)).0.type k_invalid)) [
            | inl bad ↦ inl (rw (scan, no_digit, no_letter, no_quote, bad) refl)
            | inr good ↦ inr (
              (scan_operator_or_punctuation (c ∷ cs)).0,
              (scan_operator_or_punctuation (c ∷ cs)).1,
              rw (scan, no_digit, no_letter, no_quote, good) refl,
              length-scan_operator_or_punctuation c cs,
            )
          ]
    ]
  ]
]

-- A refusal, or the end of the input, or a token with less text left.
abbrev Advances : ℕ → Result (Token × List ℕ) → Type 0
Advances n r =
    (r ≡ err invalid_argument)
    ⊎ ((t : Token) × (rest : List ℕ) × (r ≡ ok (t, rest))
        × (same_type t.type k_end_of_input ≡ true ⊎ suc (length rest) ≤ n))

scan-Advances : (cs : List ℕ) (n : ℕ) → length cs ≤ n → Advances n (scan cs)
unfolding scan same_type number
scan-Advances [] n l = inr (token k_end_of_input [], [], refl, inl refl)
scan-Advances (c ∷ cs) n l = elim (scan-Shrinks c cs) [
  | inl e ↦ inl e
  | inr (t, rest, e, small) ↦ inr (t, rest, e, inr (omega arith))
]

next_token-Advances : (cs : List ℕ) → Advances (length cs) (next_token cs)
unfolding next_token skip_whitespace_and_comments
next_token-Advances cs = scan-Advances (skip false cs) (length cs) (length-skip false cs)

after : {A B : Type 0} (r : Result A) (f : A → Result B) (a : A) → r ≡ ok a → (r >>= f) ≡ f a
after r f a e = ap (λ q. q >>= f) e

after_refusal :
    {A B : Type 0} (r : Result A) (f : A → Result B)
    → r ≡ err invalid_argument
    → (r >>= f) ≡ err invalid_argument
after_refusal r f e = ap (λ q. q >>= f) e

module _ (fuel : ℕ) (cs : List ℕ) where
  tokenize_from_refused :
      next_token cs ≡ err invalid_argument → tokenize_from (suc fuel) cs ≡ err invalid_argument
  unfolding tokenize_from
  tokenize_from_refused e = after_refusal (next_token cs) _ e

  module _ (t : Token) (rest : List ℕ) (e : next_token cs ≡ ok (t, rest)) where
    tokenize_from_end :
        same_type t.type k_end_of_input ≡ true → tokenize_from (suc fuel) cs ≡ ok (t ∷ [])
    unfolding tokenize_from
    tokenize_from_end end = after (next_token cs) _ (t, rest) e ∙ rw end refl

    tokenize_from_token :
        same_type t.type k_end_of_input ≡ false
        → tokenize_from (suc fuel) cs ≡ (tokenize_from fuel rest >>= λ tokens. ok (t ∷ tokens))
    unfolding tokenize_from
    tokenize_from_token more = after (next_token cs) _ (t, rest) e ∙ rw more refl

-- A refusal or a list.
abbrev Ends : Result (List Token) → Type 0
Ends r = (r ≡ err invalid_argument) ⊎ ((tokens : List Token) × (r ≡ ok tokens))

Ends-more : (t : Token) (r : Result (List Token)) → Ends r → Ends (r >>= λ tokens. ok (t ∷ tokens))
Ends-more t r (inl e) = inl (rw e refl)
Ends-more t r (inr (tokens, e)) = inr (t ∷ tokens, rw e refl)

-- Enough fuel gives the result, and more gives the same.
tokenize_from-Ends :
    (fuel more : ℕ) (cs : List ℕ)
    → length cs < fuel
    → length cs < more
    → Ends (tokenize_from fuel cs) × (tokenize_from fuel cs ≡ tokenize_from more cs)
tokenize_from-Ends zero more cs l k = absurd (omega arith)
tokenize_from-Ends (suc fuel) zero cs l k = absurd (omega arith)
tokenize_from-Ends (suc fuel) (suc more) cs l k = elim (next_token-Advances cs) [
  | inl e ↦ (
    inl (tokenize_from_refused fuel cs e),
    tokenize_from_refused fuel cs e ∙ sym (tokenize_from_refused more cs e),
  )
  | inr (t, rest, e, goes) ↦ elim (Bool-cases (same_type t.type k_end_of_input)) [
    | inl end ↦ (
      inr (t ∷ [], tokenize_from_end fuel cs t rest e end),
      tokenize_from_end fuel cs t rest e end ∙ sym (tokenize_from_end more cs t rest e end),
    )
    | inr token_more ↦
        let smaller : suc (length rest) ≤ length cs = ground (arith, goes, token_more) in
        let (ends, same) = tokenize_from-Ends fuel more rest (omega arith) (omega arith) in
        let step = tokenize_from_token fuel cs t rest e token_more in
        (
          rw step (Ends-more t (tokenize_from fuel rest) ends),
          step
              ∙ ap (λ (q : Result (List Token)). q >>= λ tokens. ok (t ∷ tokens)) same
              ∙ sym (tokenize_from_token more cs t rest e token_more),
        )
  ]
]

-- `TokenizeAll` ends on every text, with the tokens or with `invalid_argument`, and the fuel of its loop
-- is enough: any fuel above the length of the text gives the same.
pub tokenize_all_lem :
    (cs : List ℕ)
    → ((tokenize_all cs ≡ err invalid_argument)
        ⊎ ((tokens : List Token) × (tokenize_all cs ≡ ok tokens)))
      × ((fuel : ℕ) → length cs < fuel → tokenize_from fuel cs ≡ tokenize_all cs)
unfolding tokenize_all
tokenize_all_lem cs = (
  (tokenize_from-Ends (suc (length cs)) (suc (length cs)) cs (omega arith) (omega arith)).0,
  λ fuel enough. (tokenize_from-Ends fuel (suc (length cs)) cs enough (omega arith)).1,
)
