-- ===== src/Syntax/Token.antt =====
-- Tokens and spans, crates/wsharp-syntax/src/token.rs and span.rs. A text is the list of its bytes.
-- `F` is the type of a 64-bit float. The constructor of a keyword ends in `_kw`.
pub mod Keywords
use wsharp.Prelude.{
  ℕ, ◌+◌, ◌-◌, ◌%◌, ◌^◌, min, max, Bool, Option, none, some, List, [], ◌∷◌, ◌==◌, if◌then◌else◌,
  same_list, codes,
}

pub data TokenKind (F : Type 0) : Type 0 where
  int : ℕ → TokenKind F
  float : F → TokenKind F
  str ident : List ℕ → TokenKind F
  and_kw break_kw catch_kw const_kw continue_kw else_kw error_kw false_kw fn_kw for_kw : TokenKind F
  if_kw null_kw or_kw orelse_kw pub_kw return_kw struct_kw true_kw try_kw var_kw while_kw :
      TokenKind F
  l_paren r_paren l_brace r_brace l_bracket r_bracket comma semi colon dot dot_question :
      TokenKind F
  pipe question at plus minus star slash percent bang eq eq_eq bang_eq lt lt_eq gt gt_eq :
      TokenKind F
  plus_eq minus_eq star_eq slash_eq percent_eq amp caret tilde shl shr amp_eq pipe_eq : TokenKind F
  caret_eq shl_eq shr_eq : TokenKind F
  eof : TokenKind F

-- The source text of a token, with `none` for the `unreachable!` on those that carry a value.
unfoldable pub text : {F : Type 0} → TokenKind F → Option (List ℕ)
text and_kw = some (codes "and")
text break_kw = some (codes "break")
text catch_kw = some (codes "catch")
text const_kw = some (codes "const")
text continue_kw = some (codes "continue")
text else_kw = some (codes "else")
text error_kw = some (codes "error")
text false_kw = some (codes "false")
text fn_kw = some (codes "fn")
text for_kw = some (codes "for")
text if_kw = some (codes "if")
text null_kw = some (codes "null")
text or_kw = some (codes "or")
text orelse_kw = some (codes "orelse")
text pub_kw = some (codes "pub")
text return_kw = some (codes "return")
text struct_kw = some (codes "struct")
text true_kw = some (codes "true")
text try_kw = some (codes "try")
text var_kw = some (codes "var")
text while_kw = some (codes "while")
text l_paren = some (codes "(")
text r_paren = some (codes ")")
text l_brace = some (codes "{")
text r_brace = some (codes "}")
text l_bracket = some (codes "[")
text r_bracket = some (codes "]")
text comma = some (codes ",")
text semi = some (codes ";")
text colon = some (codes ":")
text dot = some (codes ".")
text dot_question = some (codes ".?")
text pipe = some (codes "|")
text question = some (codes "?")
text at = some (codes "@")
text plus = some (codes "+")
text minus = some (codes "-")
text star = some (codes "*")
text slash = some (codes "/")
text percent = some (codes "%")
text bang = some (codes "!")
text eq = some (codes "=")
text eq_eq = some (codes "==")
text bang_eq = some (codes "!=")
text lt = some (codes "<")
text lt_eq = some (codes "<=")
text gt = some (codes ">")
text gt_eq = some (codes ">=")
text plus_eq = some (codes "+=")
text minus_eq = some (codes "-=")
text star_eq = some (codes "*=")
text slash_eq = some (codes "/=")
text percent_eq = some (codes "%=")
text amp = some (codes "&")
text caret = some (codes "^")
text tilde = some (codes "~")
text shl = some (codes "<<")
text shr = some (codes ">>")
text amp_eq = some (codes "&=")
text pipe_eq = some (codes "|=")
text caret_eq = some (codes "^=")
text shl_eq = some (codes "<<=")
text shr_eq = some (codes ">>=")
text eof = some (codes "<eof>")
text _ = none

-- The arms of `keyword`, in their order.
abbrev pub keywords : {F : Type 0} → List (List ℕ × TokenKind F)
keywords =
    (codes "and", and_kw)
    ∷ (codes "break", break_kw)
    ∷ (codes "catch", catch_kw)
    ∷ (codes "const", const_kw)
    ∷ (codes "continue", continue_kw)
    ∷ (codes "else", else_kw)
    ∷ (codes "error", error_kw)
    ∷ (codes "false", false_kw)
    ∷ (codes "fn", fn_kw)
    ∷ (codes "for", for_kw)
    ∷ (codes "if", if_kw)
    ∷ (codes "null", null_kw)
    ∷ (codes "or", or_kw)
    ∷ (codes "orelse", orelse_kw)
    ∷ (codes "pub", pub_kw)
    ∷ (codes "return", return_kw)
    ∷ (codes "struct", struct_kw)
    ∷ (codes "true", true_kw)
    ∷ (codes "try", try_kw)
    ∷ (codes "var", var_kw)
    ∷ (codes "while", while_kw)
    ∷ []

abbrev pub keyword_in : {F : Type 0} → List ℕ → List (List ℕ × TokenKind F) → Option (TokenKind F)
keyword_in word [] = none
keyword_in word ((w, k) ∷ rest) =
    let later = keyword_in word rest in if same_list word w then some k else later

unfoldable pub keyword : {F : Type 0} → List ℕ → Option (TokenKind F)
keyword word = keyword_in word keywords

pub record Span : Type 0 where
  pub start : ℕ
  pub end : ℕ

-- `Span::new`, which casts to `u32`.
abbrev pub span_new : ℕ → ℕ → Span
span_new start end = record { start = start % 2 ^ 32; end = end % 2 ^ 32 }

-- `Span::to`.
unfoldable pub to : Span → Span → Span
to a b = record { start = min a.start b.start; end = max a.end b.end }

-- `Span::len` and `Span::is_empty`; `u32` subtraction, of spans that end at or after their start.
unfoldable pub len : Span → ℕ
len s = s.end - s.start

unfoldable pub is_empty : Span → Bool
is_empty s = s.start == s.end

pub record Token (F : Type 0) : Type 0 where
  pub kind : TokenKind F
  pub span : Span
