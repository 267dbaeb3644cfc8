-- ===== src/Template/Parser/Total.antt =====
-- The parser over the lexer: what framework/src/templatengine/codegen.c runs on a template's text.
use cweb.Base.{
  suc, ◌-◌, ◌≤◌, ◌<◌, ◌≡◌, ◌≢◌, inl, inr, ap, sym, subst, some, Bytes, Lacks, length, arith, leb,
  if_true, Bool-cases,
}
use cweb.Template.Lexer.{Lexer, Token, token_eof, lexer_create, lexer_next_token}
use cweb.Template.Lexer.Moves.{next_token-Moves}
use cweb.Template.Lexer.Progress.{Moves-input, Moves-bound, next_token-IsAhead}
use cweb.Template.Parser.{AstNodes, parser_create, parser_parse}
use cweb.Template.Parser.Ends.{Drains, parser_parse-total}

at_end : (l : Lexer) → length l.input ≤ l.position → (lexer_next_token l).1.type ≡ token_eof
unfolding lexer_next_token
at_end l h =
    ap (λ r. r.1.type)
      (if_true {A = Lexer × Token} (leb (length l.input) l.position) _ _ (ground arith))

abbrev IsText : Lexer → Type 0
IsText l = Lacks 0 l.input × (l.position ≤ length l.input)

next_valid : (l : Lexer) → IsText l → IsText (lexer_next_token l).0
next_valid l (no_nul, inside) =
    let h = next_token-Moves l in
    let same = sym (Moves-input h) in
    (
      subst (Lacks 0) same no_nul,
      subst (λ s. (lexer_next_token l).0.position ≤ length s) same (Moves-bound h inside),
    )

leaves_less :
    (l : Lexer)
    → IsText l
    → (lexer_next_token l).1.type ≢ token_eof
    → length (lexer_next_token l).0.input - (lexer_next_token l).0.position
      < length l.input - l.position
leaves_less l (no_nul, inside) n = elim (Bool-cases (leb (length l.input) l.position)) [
  | inl e ↦ absurd (n (at_end l (ground arith)))
  | inr e ↦
      let a = next_token-IsAhead l no_nul (ground arith) in
      omega (arith, ap length a.keeps_input, a.gets_ahead, a.stays_inside)
]

-- The lexer as the parser's source of tokens.
abbrev lexer_drains : Drains lexer_next_token
lexer_drains = record {
  Valid = IsText;
  remaining = λ l. length l.input - l.position;
  next_valid = next_valid;
  leaves_less = leaves_less;
}

-- Lexing and parsing end for every text without NUL, however its tags are nested or left open: with
-- fuel for one token more than the text has bytes, the parser gives the children of the root.
pub parse_template-total :
    (input : Bytes)
    → Lacks 0 input
    → (children : AstNodes) × (parser_parse lexer_next_token
          (suc (length input))
          (parser_create lexer_next_token (lexer_create input))
        ≡ some children)
parse_template-total input h =
    parser_parse-total lexer_next_token lexer_drains (suc (length input)) (lexer_create input)
      (h, omega arith) (omega arith)
