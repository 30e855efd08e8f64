-- ===== src/Parser/Tokenizer/Quotes.antt =====
-- String literals of parser/tokenizer.cpp.
use database_engine.Base.{
  ℕ, ◌≤◌, ◌≡◌, refl, sym, ap, ◌∙◌, ◌≢◌, inl, inr, true, false, List, [], ◌∷◌, ◌++◌, arith, ◌==◌,
  ==_iff, Bool-cases, length, length-append,
}
use database_engine.Util.Status.{ok, ◌>>=◌}
use database_engine.Parser.Token.{k_string_literal, token}
use database_engine.Parser.Tokenizer.{peek, string_body, scan_string}

-- A text as it is written between quotes: each quote twice.
unfoldable pub quoted : List ℕ → List ℕ
quoted [] = []
quoted (c ∷ cs) = elim (c == 39) [ true ↦ 39 ∷ 39 ∷ quoted cs | false ↦ c ∷ quoted cs ]

string_body_plain :
    (c : ℕ) (cs : List ℕ)
    → (c == 39) ≡ false
    → 1 ≤ length cs
    → string_body (c ∷ cs) ≡ (string_body cs >>= λ found. ok (c ∷ found.0, found.1))
unfolding string_body
string_body_plain c [] plain some_left = absurd (omega arith)
string_body_plain c (d ∷ cs) plain some_left = rw (string_body, plain) refl

string_body_pair :
    (cs : List ℕ)
    → string_body (39 ∷ 39 ∷ cs) ≡ (string_body cs >>= λ found. ok (39 ∷ found.0, found.1))
unfolding string_body
string_body_pair cs = refl

string_body_end :
    (rest : List ℕ) → (peek rest == 39) ≡ false → string_body (39 ∷ rest) ≡ ok ([], rest)
unfolding string_body
string_body_end [] h = refl
string_body_end (d ∷ rest) h = rw (string_body, h) refl

string_body-quoted :
    (text rest : List ℕ)
    → (peek rest == 39) ≡ false
    → string_body (quoted text ++ (39 ∷ rest)) ≡ ok (text, rest)
unfolding quoted
string_body-quoted [] rest h = string_body_end rest h
string_body-quoted (c ∷ cs) rest h = elim (Bool-cases (c == 39)) [
  | inl quote ↦
      rw (quoted, quote)
        (string_body_pair (quoted cs ++ (39 ∷ rest))
          ∙ rw (string_body-quoted cs rest h)
              (ap (λ k. ok (k ∷ cs, rest)) (sym ((==_iff c 39).0 quote))))
  | inr plain ↦
      let left : 1 ≤ length (quoted cs ++ (39 ∷ rest)) =
        omega (arith, length-append (quoted cs) (39 ∷ rest)) in
      rw (quoted, plain)
        (string_body_plain c (quoted cs ++ (39 ∷ rest)) plain left
          ∙ rw (string_body-quoted cs rest h) refl)
]

-- A text that is written between quotes, each quote in it twice, is scanned as that text, whatever
-- characters it has, if no third quote follows.
pub scan_string-quoted :
    (text rest : List ℕ)
    → peek rest ≢ 39
    → scan_string (39 ∷ (quoted text ++ (39 ∷ rest))) ≡ ok (token k_string_literal text, rest)
unfolding scan_string
scan_string-quoted text rest h =
    let ends : (peek rest == 39) ≡ false = ground arith in
    rw (scan_string, string_body-quoted text rest ends) refl
