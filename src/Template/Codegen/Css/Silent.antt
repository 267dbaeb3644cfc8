-- ===== src/Template/Codegen/Css/Silent.antt =====
-- A part of a template that is said to hold no CSS has none written for it.
use cweb.Base.{
  ◌≡◌, refl, ap, sym, ◌∙◌, inl, inr, Bool, true, false, not, ◌&&◌, ◌||◌, [], Option, none, some,
  if◌then◌else◌, if_false, if_true, Bool-cases,
}
use cweb.Template.Parser.{
  AstNode, AstNodes, ast_html, ast_c_code, ast_variable, ast_cloop, ast_cif, ast_celse, ast_cstyle,
  ast_root, ast_node, no_nodes, and_node,
}
use cweb.Template.Codegen.Css.{
  is_inline, node_contains_css_content, any_contains_css, is_else_clause, then_has_css, else_node,
  else_has_css, emit_css_node, emit_css_nodes,
}

or_false : (a b : Bool) → (a || b) ≡ false → (a ≡ false) × (b ≡ false)
or_false true b e = (e, cc e)
or_false false b e = (refl, e)

then_none :
    (ns : AstNodes) (inside : Bool)
    → any_contains_css ns inside ≡ false
    → then_has_css ns inside ≡ false
unfolding any_contains_css then_has_css
then_none no_nodes inside e = refl
then_none (and_node n ns) inside e =
    let (here, later) =
      or_false (node_contains_css_content n inside) (any_contains_css ns inside) e in
    elim (Bool-cases (not (is_else_clause n))) [
      | inl kept ↦ cc (here, then_none ns inside later, kept)
      | inr other ↦ cc (then_none ns inside later, other)
    ]

else_step :
    (n : AstNode) (o : Option AstNode) (inside : Bool)
    → node_contains_css_content n inside ≡ false
    → else_has_css o inside ≡ false
    → else_has_css
        (elim o [ some e ↦ some e | none ↦ if is_else_clause n then some n else none ])
        inside
      ≡ false
else_step n (some e) inside here later = later
else_step n none inside here later = elim (Bool-cases (is_else_clause n)) [
  | inl clause ↦
      ap (λ o. else_has_css o inside) (if_true (is_else_clause n) (some n) none clause) ∙ here
  | inr other ↦ ap (λ o. else_has_css o inside) (if_false (is_else_clause n) (some n) none other)
]

else_none :
    (ns : AstNodes) (inside : Bool)
    → any_contains_css ns inside ≡ false
    → else_has_css (else_node ns) inside ≡ false
unfolding any_contains_css else_node
else_none no_nodes inside e = refl
else_none (and_node n ns) inside e =
    let (here, later) =
      or_false (node_contains_css_content n inside) (any_contains_css ns inside) e in
    else_step n (else_node ns) inside here (else_none ns inside later)

-- A style tag that is written is written as one that is inside.
style_inside :
    (inline' inside : Bool)
    → (inline' && not inside) ≡ false
    → (if inline' then inside else true) ≡ true
style_inside false inside e = refl
style_inside true true e = refl
style_inside true false e = absurd (cc e)

mutual
  unfolding node_contains_css_content emit_css_node

  node_silent :
      (n : AstNode) (inside : Bool)
      → node_contains_css_content n inside ≡ false
      → emit_css_node n inside ≡ some []
  node_silent (ast_node ast_html content children l c) inside e = cc e
  node_silent (ast_node ast_c_code content children l c) inside e = cc e
  node_silent (ast_node ast_variable content children l c) inside e = cc e
  node_silent (ast_node ast_cloop content children l c) inside e = cc e
  node_silent (ast_node ast_cif content children l c) inside e =
      cc (then_none children inside e, else_none children inside e)
  node_silent (ast_node ast_celse content children l c) inside e = nodes_silent children inside e
  node_silent (ast_node ast_root content children l c) inside e = nodes_silent children inside e
  node_silent (ast_node ast_cstyle content children l c) inside e =
      let skipped = is_inline content && not inside in
      elim (Bool-cases skipped) [
        | inl skip ↦ if_true skipped (some []) (emit_css_nodes children true) skip
        | inr stays ↦
            let found : any_contains_css children (if is_inline content then inside else true)
                ≡ false =
              sym (
                if_false skipped false
                  (any_contains_css children (if is_inline content then inside else true)) stays)
              ∙ e in
            if_false skipped (some []) (emit_css_nodes children true) stays
            ∙ nodes_silent children true (
                ap (any_contains_css children) (sym (style_inside (is_inline content) inside stays))
                ∙ found)
      ]

  nodes_silent :
      (ns : AstNodes) (inside : Bool)
      → any_contains_css ns inside ≡ false
      → emit_css_nodes ns inside ≡ some []
  nodes_silent no_nodes inside e = refl
  nodes_silent (and_node n ns) inside e =
      let (here, later) =
        or_false (node_contains_css_content n inside) (any_contains_css ns inside) e in
      cc (node_silent n inside here, nodes_silent ns inside later)

-- Where `node_contains_css_content` says that a node has no CSS, nothing is written for the node: no loop, no
-- condition and no print.
pub emit_css_node-silent :
    (n : AstNode) (inside : Bool)
    → node_contains_css_content n inside ≡ false
    → emit_css_node n inside ≡ some []
emit_css_node-silent n inside e = node_silent n inside e
