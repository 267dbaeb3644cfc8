-- ===== src/Template/Parser.antt =====
-- framework/src/templatengine/parser.c and ast.c: the tree of a template, over any source of tokens in
-- the lexer's place. Allocation succeeds.
pub mod Nesting
pub mod Ends
pub mod Total
use cweb.Base.{
  ◌>>=◌, ℕ, zero, suc, Bool, true, false, not, ◌||◌, List, [], ◌∷◌, ◌++◌, Option, none, some,
  if◌then◌else◌, Bytes,
}
use cweb.Template.Lexer.{
  TokenType, Token, token_html, token_c_code, token_variable, token_cloop, token_cif, token_celse,
  token_cendloop, token_cendif, token_cstyle, token_cendstyle, token_eof, token_error,
}

pub data AstType : Type 0 where
  ast_html ast_c_code ast_variable ast_cloop ast_cif ast_celse ast_cstyle ast_root : AstType

-- struct ast_node, with its array of children.
mutual
  pub data AstNode : Type 0 where
    ast_node : AstType → Option Bytes → AstNodes → (line column : ℕ) → AstNode

  pub data AstNodes : Type 0 where
    no_nodes : AstNodes
    and_node : AstNode → AstNodes → AstNodes

-- cweb_ast_node_add_child
pub ast_node_add_child : AstNodes → AstNode → AstNodes
ast_node_add_child no_nodes child = and_node child no_nodes
ast_node_add_child (and_node n ns) child = and_node n (ast_node_add_child ns child)

-- A node with its token's text and place.
abbrev node_of : AstType → Token → AstNodes → AstNode
node_of type t children = ast_node type t.value children t.line t.column

-- The tokens that end a body: the tests of the loops over its elements.
abbrev pub ends_root : TokenType → Bool
ends_root token_eof = true
ends_root _ = false

abbrev pub ends_cstyle : TokenType → Bool
ends_cstyle token_eof = true
ends_cstyle token_cendstyle = true
ends_cstyle _ = false

abbrev pub ends_cloop : TokenType → Bool
ends_cloop token_eof = true
ends_cloop token_cendloop = true
ends_cloop _ = false

abbrev pub ends_cif : TokenType → Bool
ends_cif token_eof = true
ends_cif token_celse = true
ends_cif token_cendif = true
ends_cif _ = false

abbrev pub ends_celse : TokenType → Bool
ends_celse token_eof = true
ends_celse token_cendif = true
ends_celse _ = false

abbrev pub is_celse : TokenType → Bool
is_celse token_celse = true
is_celse _ = false

abbrev pub is_cendstyle : TokenType → Bool
is_cendstyle token_cendstyle = true
is_cendstyle _ = false

abbrev pub is_cendloop : TokenType → Bool
is_cendloop token_cendloop = true
is_cendloop _ = false

abbrev pub is_cendif : TokenType → Bool
is_cendif token_cendif = true
is_cendif _ = false

-- `S` is the type of the source's states.
pub record Parser (S : Type 0) : Type 0 where
  pub lexer : S
  pub current_token : Token

-- A loop over the elements of a body, as `parse_body` below runs it.
abbrev pub Body : Type 0 → Type 0
Body S = (TokenType → Bool) → Parser S → Option (Parser S × AstNodes)

module _ {S : Type 0} (next_token : S → S × Token) where
  pub parser_create : S → Parser S
  parser_create s = let (s', t) = next_token s in record { lexer = s'; current_token = t }

  pub parser_advance : Parser S → Parser S
  unfolding parser_create
  parser_advance p = parser_create p.lexer

  -- if (current_token.type == ...) parser_advance(parser), behind a body
  pub skip_token : (TokenType → Bool) → Parser S → Parser S
  unfolding parser_advance
  skip_token wanted p = if wanted p.current_token.type then parser_advance p else p

  parse_leaf : AstType → Parser S → Option (Parser S × Option AstNode)
  unfolding parser_advance
  parse_leaf type p = some (parser_advance p, some (node_of type p.current_token no_nodes))

  parse_cstyle : Body S → Parser S → Option (Parser S × Option AstNode)
  unfolding skip_token
  parse_cstyle body p = do
    (q, children) ← body ends_cstyle (parser_advance p)
    some (skip_token is_cendstyle q, some (node_of ast_cstyle p.current_token children))

  parse_cloop : Body S → Parser S → Option (Parser S × Option AstNode)
  unfolding skip_token
  parse_cloop body p = do
    (q, children) ← body ends_cloop (parser_advance p)
    some (skip_token is_cendloop q, some (node_of ast_cloop p.current_token children))

  -- The else clause; its node has neither text nor place.
  pub parse_celse : Body S → Parser S → AstNodes → Option (Parser S × AstNodes)
  unfolding parser_advance
  parse_celse body p children =
      let clause = body ends_celse (parser_advance p) >>= λ (q, others).
      some (q, ast_node_add_child children (ast_node ast_celse none others 0 0)) in
      if is_celse p.current_token.type then clause else some (p, children)

  parse_cif : Body S → Parser S → Option (Parser S × Option AstNode)
  unfolding skip_token parse_celse
  parse_cif body p = do
    (q, children) ← body ends_cif (parser_advance p)
    (r, all) ← parse_celse body q children
    some (skip_token is_cendif r, some (node_of ast_cif p.current_token all))

  pub parse_element : Body S → Parser S → Option (Parser S × Option AstNode)
  unfolding parse_leaf parse_cstyle parse_cloop parse_cif
  parse_element body p = elim p.current_token.type [
    | token_html ↦ parse_leaf ast_html p
    | token_c_code ↦ parse_leaf ast_c_code p
    | token_variable ↦ parse_leaf ast_variable p
    | token_cloop ↦ parse_cloop body p
    | token_cif ↦ parse_cif body p
    | token_cstyle ↦ parse_cstyle body p
    | _ ↦ some (parser_advance p, none)
  ]

  abbrev add_element : Option AstNode → AstNodes → AstNodes
  add_element none ns = ns
  add_element (some n) ns = and_node n ns

  -- The elements up to a token that ends the body. Fuel bounds the number of tokens: none is for a
  -- run that needs more.
  pub parse_body : ℕ → Body S
  unfolding parse_element
  parse_body zero ends p = none
  parse_body (suc n) ends p =
      let run = parse_element (parse_body n) p >>= λ (q, element).
      parse_body n ends q >>= λ (r, rest). some (r, add_element element rest) in
      if ends p.current_token.type then some (p, no_nodes) else run

  -- The children of the root.
  unfoldable pub parser_parse : ℕ → Parser S → Option AstNodes
  unfolding parse_body
  parser_parse fuel p = do (q, children) ← parse_body fuel ends_root p; some children
