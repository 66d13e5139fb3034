-- ===== src/Syntax/Token/Keywords.antt =====
-- For `keyword` and `text` of crates/wsharp-syntax/src/token.rs.
use wsharp.Prelude.{
  ◌≡◌, some, List, [], ◌∷◌, arith, ℕ, same_list, same_list→≡, Bool-cases, inl, inr,
}
use wsharp.Syntax.Token.{TokenKind, text, keyword, keyword_in, keywords}

-- Each word of the table is the text of its token.
abbrev AllText : {F : Type 0} → List (List ℕ × TokenKind F) → Type 0
AllText [] = Unit
AllText ((w, k) ∷ rest) = (text k ≡ some w) × AllText rest

keywords-AllText : (F : Type 0) → AllText (keywords {F = F})
unfolding text
keywords-AllText F = ground arith

keyword_in-text :
    {F : Type 0} (word : List ℕ) (k : TokenKind F) (table : List (List ℕ × TokenKind F))
    → AllText table
    → keyword_in word table ≡ some k
    → text k ≡ some word
keyword_in-text word k [] all e = absurd (cc)
keyword_in-text word k ((w, k') ∷ rest) (here, all) e = elim (Bool-cases (same_list word w)) [
  | inl hit ↦
      let same = same_list→≡ word w hit in
      let kind : k' ≡ k = ground arith in rw (← kind, same) here
  | inr miss ↦ keyword_in-text word k rest all (rw miss at e)
]

-- A word that `keyword` knows is the text that the token's kind is displayed as.
pub keyword-text :
    (F : Type 0) (word : List ℕ) (k : TokenKind F)
    → keyword {F = F} word ≡ some k
    → text k ≡ some word
unfolding keyword
keyword-text F word k e = keyword_in-text word k keywords (keywords-AllText F) e
