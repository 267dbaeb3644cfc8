-- ===== src/Template/Parser/Nesting.antt =====
-- The tree that parser.c makes of a well-nested row of tokens.
use cweb.Base.{
  ℕ, zero, suc, ◌+◌, ◌≤◌, ◌<◌, ◌≡◌, refl, Bool, true, false, List, [], ◌∷◌, Option, none, some,
  length, Bytes, arith,
}
use cweb.Template.Lexer.{
  TokenType, Token, token_html, token_c_code, token_variable, token_cloop, token_cif, token_celse,
  token_cendloop, token_cendif, token_cstyle, token_cendstyle, token_eof,
}
use cweb.Template.Parser.{
  AstType, AstNode, AstNodes, ast_html, ast_c_code, ast_variable, ast_cloop, ast_cif, ast_celse,
  ast_cstyle, ast_node, no_nodes, and_node, ast_node_add_child, Parser, parse_element, parse_body,
  parser_parse, ends_root, ends_cstyle, ends_cloop, ends_cif, ends_celse,
}

-- What a token carries beside its type.
pub record Mark : Type 0 where
  pub value : Option Bytes
  pub line : ℕ
  pub column : ℕ

abbrev pub token : TokenType → Mark → Token
token type m = record { type = type; value = m.value; line = m.line; column = m.column }

pub data Leaf : Type 0 where
  html c_code variable : Leaf

-- Well-nested templates, with the marks of all their tokens.
mutual
  pub data Tree : Type 0 where
    leaf : Leaf → Mark → Tree
    loop style cond : Mark → Trees → Mark → Tree
    cond_else : Mark → Trees → Mark → Trees → Mark → Tree

  pub data Trees : Type 0 where
    no_trees : Trees
    and_tree : Tree → Trees → Trees

abbrev leaf_token : Leaf → TokenType
leaf_token html = token_html
leaf_token c_code = token_c_code
leaf_token variable = token_variable

abbrev leaf_type : Leaf → AstType
leaf_type html = ast_html
leaf_type c_code = ast_c_code
leaf_type variable = ast_variable

-- The tokens of a template, before those of `rest`.
unfoldable mutual
  pub tokens : Tree → List Token → List Token
  tokens (leaf k m) rest = token (leaf_token k) m ∷ rest
  tokens (loop m ts e) rest = token token_cloop m ∷ all_tokens ts (token token_cendloop e ∷ rest)
  tokens (style m ts e) rest = token token_cstyle m ∷ all_tokens ts (token token_cendstyle e ∷ rest)
  tokens (cond m ts e) rest = token token_cif m ∷ all_tokens ts (token token_cendif e ∷ rest)
  tokens (cond_else m ts c us e) rest =
      token token_cif m
      ∷ all_tokens ts (token token_celse c ∷ all_tokens us (token token_cendif e ∷ rest))

  pub all_tokens : Trees → List Token → List Token
  all_tokens no_trees rest = rest
  all_tokens (and_tree t ts) rest = tokens t (all_tokens ts rest)

abbrev pub marked : AstType → Mark → AstNodes → AstNode
marked type m children = ast_node type m.value children m.line m.column

-- The tree that stands for a template.
unfoldable mutual
  tree_ast : Tree → AstNode
  tree_ast (leaf k m) = marked (leaf_type k) m no_nodes
  tree_ast (loop m ts e) = marked ast_cloop m (trees_ast ts)
  tree_ast (style m ts e) = marked ast_cstyle m (trees_ast ts)
  tree_ast (cond m ts e) = marked ast_cif m (trees_ast ts)
  tree_ast (cond_else m ts c us e) =
      marked ast_cif m
        (ast_node_add_child (trees_ast ts) (ast_node ast_celse none (trees_ast us) 0 0))

  pub trees_ast : Trees → AstNodes
  trees_ast no_trees = no_nodes
  trees_ast (and_tree t ts) = and_node (tree_ast t) (trees_ast ts)

-- A list as a source of tokens.
abbrev pub list_next : List Token → List Token × Token
list_next [] = ([], record { type = token_eof; value = none; line = 0; column = 0 })
list_next (t ∷ ts) = (ts, t)

abbrev pub at : List Token → Parser (List Token)
at ts = record { lexer = (list_next ts).0; current_token = (list_next ts).1 }

-- The fuel that a template needs.
unfoldable mutual
  tree_fuel : Tree → ℕ
  tree_fuel (leaf k m) = 0
  tree_fuel (loop m ts e) = trees_fuel ts
  tree_fuel (style m ts e) = trees_fuel ts
  tree_fuel (cond m ts e) = trees_fuel ts
  tree_fuel (cond_else m ts c us e) = trees_fuel ts + trees_fuel us

  trees_fuel : Trees → ℕ
  trees_fuel no_trees = 1
  trees_fuel (and_tree t ts) = suc (tree_fuel t + trees_fuel ts)

-- A body goes on at each token that can begin an element.
abbrev GoesOn : (TokenType → Bool) → Type 0
GoesOn ends =
    (ends token_html ≡ false)
    × (ends token_c_code ≡ false)
    × (ends token_variable ≡ false)
    × (ends token_cloop ≡ false)
    × (ends token_cif ≡ false)
    × (ends token_cstyle ≡ false)

head-GoesOn :
    (t : Tree) (ends : TokenType → Bool) (rest : List Token)
    → GoesOn ends
    → ends (list_next (tokens t rest)).1.type ≡ false
unfolding tokens
head-GoesOn (leaf html m) ends rest on = on.0
head-GoesOn (leaf c_code m) ends rest on = on.1
head-GoesOn (leaf variable m) ends rest on = on.2
head-GoesOn (loop m ts e) ends rest on = on.3
head-GoesOn (style m ts e) ends rest on = on.5
head-GoesOn (cond m ts e) ends rest on = on.4
head-GoesOn (cond_else m ts c us e) ends rest on = on.4

mutual
  unfolding tokens tree_ast tree_fuel parse_body parse_element parser_parse

  element_tree :
      (n : ℕ) (t : Tree) (rest : List Token)
      → tree_fuel t ≤ n
      → parse_element list_next (parse_body list_next n) (at (tokens t rest))
        ≡ some (at rest, some (tree_ast t))
  element_tree n (leaf html m) rest h = refl
  element_tree n (leaf c_code m) rest h = refl
  element_tree n (leaf variable m) rest h = refl
  element_tree n (loop m ts e) rest h =
      rw
        (body_trees n ts ends_cloop (token token_cendloop e ∷ rest) h refl
          (refl, refl, refl, refl, refl, refl))
        refl
  element_tree n (style m ts e) rest h =
      rw
        (body_trees n ts ends_cstyle (token token_cendstyle e ∷ rest) h refl
          (refl, refl, refl, refl, refl, refl))
        refl
  element_tree n (cond m ts e) rest h =
      rw
        (body_trees n ts ends_cif (token token_cendif e ∷ rest) h refl
          (refl, refl, refl, refl, refl, refl))
        refl
  element_tree n (cond_else m ts c us e) rest h =
      rw
        (
          body_trees n ts ends_cif
              (token token_celse c ∷ all_tokens us (token token_cendif e ∷ rest)) (omega arith) refl
              (refl, refl, refl, refl, refl, refl),
          body_trees n us ends_celse (token token_cendif e ∷ rest) (omega arith) refl
              (refl, refl, refl, refl, refl, refl),
        )
        refl

  body_trees :
      (n : ℕ) (ts : Trees) (ends : TokenType → Bool) (rest : List Token)
      → trees_fuel ts ≤ n
      → ends (list_next rest).1.type ≡ true
      → GoesOn ends
      → parse_body list_next n ends (at (all_tokens ts rest)) ≡ some (at rest, trees_ast ts)
  body_trees zero no_trees ends rest h stop on = absurd (omega arith)
  body_trees zero (and_tree t ts) ends rest h stop on = absurd (omega arith)
  body_trees (suc n) no_trees ends rest h stop on = rw stop refl
  body_trees (suc n) (and_tree t ts) ends rest h stop on =
      rw
        (
          head-GoesOn t ends (all_tokens ts rest) on,
          element_tree n t (all_tokens ts rest) (omega arith),
          body_trees n ts ends rest (omega arith) stop on,
        )
        refl

mutual
  unfolding tokens tree_fuel

  tree_fuel_bound :
      (t : Tree) (rest : List Token) → tree_fuel t + suc (length rest) ≤ length (tokens t rest)
  tree_fuel_bound (leaf k m) rest = omega arith
  tree_fuel_bound (loop m ts e) rest =
      omega (arith, trees_fuel_bound ts (token token_cendloop e ∷ rest))
  tree_fuel_bound (style m ts e) rest =
      omega (arith, trees_fuel_bound ts (token token_cendstyle e ∷ rest))
  tree_fuel_bound (cond m ts e) rest =
      omega (arith, trees_fuel_bound ts (token token_cendif e ∷ rest))
  tree_fuel_bound (cond_else m ts c us e) rest = omega (
    arith,
    trees_fuel_bound us (token token_cendif e ∷ rest),
    trees_fuel_bound ts (token token_celse c ∷ all_tokens us (token token_cendif e ∷ rest)),
  )

  trees_fuel_bound :
      (ts : Trees) (rest : List Token)
      → trees_fuel ts + length rest ≤ suc (length (all_tokens ts rest))
  trees_fuel_bound no_trees rest = omega arith
  trees_fuel_bound (and_tree t ts) rest =
      omega (arith, tree_fuel_bound t (all_tokens ts rest), trees_fuel_bound ts rest)

-- The parser rebuilds every well-nested template from its tokens: of the row of tokens that a tree of
-- HTML, C code, variables, loops, styles and conditions with or without an else clause has, it
-- makes the nodes of that tree, in order, each with the text and place of its token. As much fuel as there
-- are tokens and one more is enough.
pub parse-tokens :
    (ts : Trees) (fuel : ℕ)
    → length (all_tokens ts []) < fuel
    → parser_parse list_next fuel (at (all_tokens ts [])) ≡ some (trees_ast ts)
unfolding parser_parse
parse-tokens ts fuel h =
    rw
      (body_trees fuel ts ends_root [] (omega (arith, trees_fuel_bound ts [])) refl
        (refl, refl, refl, refl, refl, refl))
      refl
