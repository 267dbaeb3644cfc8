-- ===== src/Template/Examples.antt =====
-- The theorems on the template compiler at concrete templates.
use cweb.Base.{
  List, ◌∷◌, none, ℕ, ◌≤◌, ◌<◌, ◌≡◌, refl, true, [], some, length, Bytes, codes, lacks-Lacks, arith,
}
use cweb.Template.Lexer.{Lexer, lexer_create, lexer_next_token}
use cweb.Template.Lexer.Progress.{IsAhead, next_token-IsAhead}
use cweb.Template.Parser.{AstNodes, parser_create, parser_parse}
use cweb.Template.Parser.Nesting.{
  Mark, Trees, leaf, loop, cond_else, no_trees, and_tree, html as html_leaf, variable, all_tokens,
  trees_ast, list_next, at, parse-tokens,
}
use cweb.Template.Parser.Total.{parse_template-total}
use cweb.Template.Runtime.{
  Output, raw, html, no_buffer, buffer_init, output, output_all, set_asset_link,
}
use cweb.Template.Runtime.Writes.{
  Holds, joined, buffer_init-IsBuffer, output_all-Holds, output-no_buffer,
}
use cweb.Template.Security.{escape_html, sanitize_c_code}
use cweb.Template.Security.Escape.{all_inert, escape_html_safe}

abbrev text : Bytes
text = codes "<cif u->on>\n{ name }<celse>off</cif>"

abbrev page : Lexer
page = lexer_create text

next_token-IsAhead_example : IsAhead page (lexer_next_token page)
next_token-IsAhead_example = next_token-IsAhead page (lacks-Lacks 0 text refl) (omega arith)

abbrev mark : ℕ → Mark
mark n = record { value = some (codes "x"); line = 1; column = n }

-- <cloop ...>x<cif ...>{x}<celse>x</cif></cloop>
abbrev nested : Trees
nested =
    and_tree
      (loop (mark 1)
        (and_tree (leaf html_leaf (mark 2)) (
          and_tree
            (cond_else (mark 3) (and_tree (leaf variable (mark 4)) no_trees) (mark 5)
              (and_tree (leaf html_leaf (mark 6)) no_trees) (mark 7))
            no_trees))
        (mark 8))
      no_trees

nested_size : length (all_tokens nested []) < 9
unfolding all_tokens
nested_size = omega arith

parse-tokens_example :
    parser_parse list_next 9 (at (all_tokens nested [])) ≡ some (trees_ast nested)
parse-tokens_example = parse-tokens nested 9 nested_size

parse_template-total_example :
    (children : AstNodes) × (parser_parse lexer_next_token 37 (parser_create lexer_next_token page)
      ≡ some children)
parse_template-total_example = parse_template-total text (lacks-Lacks 0 text refl)

-- The first token of the page and what the parser skips without a word.
first_token : (lexer_next_token page).1.value ≡ some (codes "<cif u->on>")
unfolding lexer_next_token
first_token = refl

escape_html_safe_example :
    (all_inert (escape_html (codes "<b>'hi'</b>")) ≡ true)
    × (length (escape_html (codes "<b>'hi'</b>")) ≤ 66)
escape_html_safe_example = escape_html_safe (codes "<b>'hi'</b>")

-- The words are looked for as they stand: a blank before the parenthesis hides a call.
blank_passes : sanitize_c_code (codes "system (cmd)") ≡ true
unfolding sanitize_c_code
blank_passes = refl

abbrev outputs : List Output
outputs = raw (codes "<p>") ∷ html (codes "a<b") ∷ raw (codes "</p>") ∷ []

outputs-length : length (joined outputs) < 100
unfolding escape_html
outputs-length = omega arith

output_all-Holds_example : Holds (output_all 64 buffer_init outputs) (joined outputs)
output_all-Holds_example =
    output_all-Holds outputs buffer_init buffer_init-IsBuffer (omega (arith, outputs-length))

output-no_buffer_example : output 1000 no_buffer (raw (codes "x")) ≡ none
output-no_buffer_example = output-no_buffer 1000 (raw (codes "x")) (omega arith)

abbrev doc : Bytes
doc = codes "<head><link href=\"a.css\"></head>"

linked :
    set_asset_link doc (codes "a.css") (codes "/b.css") none
    ≡ some (codes "<head><link href=\"/b.css\"></head>")
unfolding set_asset_link
linked = refl

-- The second tag and the text behind the head stay as they are.
abbrev two_links : Bytes
two_links = codes "<head><link href=\"a.css\"><link href=\"a.css\"></head><p>"
