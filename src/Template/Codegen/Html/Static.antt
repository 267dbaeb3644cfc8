-- ===== src/Template/Codegen/Html/Static.antt =====
-- The code of a template that has neither C, nor variables, nor control tags, run.
use cweb.Base.{
  ◌≡◌, refl, sym, subst, Bool, true, false, not, ◌&&◌, [], ◌++◌, Option, some, if◌then◌else◌,
  if_false, Bytes, codes,
}
use cweb.Template.Parser.{
  AstNode, AstNodes, ast_html, ast_c_code, ast_variable, ast_cloop, ast_cif, ast_celse, ast_cstyle,
  ast_root, ast_node, no_nodes, and_node,
}
use cweb.Template.Codegen.Style.{CstyleTagInfo, parse_cstyle_tag_info}
use cweb.Template.Codegen.Css.{is_inline, print_literal, then_text, emit_css_node, emit_css_nodes}
use cweb.Template.Codegen.Html.Prints.{
  text_of, Prints, nothing-Prints, print_literal-Prints, then_text-Prints, written_if-Prints,
  branch-Prints, RunsTo, runs_alone,
}
use cweb.Template.Codegen.Html.{style_open, style_text, generate_html_node, generate_html_nodes}

-- Whether a tree has only HTML and styles.
unfoldable mutual
  pub is_static : AstNode → Bool
  is_static (ast_node ast_html content children l c) = true
  is_static (ast_node ast_cstyle content children l c) = all_static children
  is_static (ast_node ast_root content children l c) = all_static children
  is_static (ast_node ast_celse content children l c) = all_static children
  is_static (ast_node ast_c_code content children l c) = false
  is_static (ast_node ast_variable content children l c) = false
  is_static (ast_node ast_cloop content children l c) = false
  is_static (ast_node ast_cif content children l c) = false

  all_static : AstNodes → Bool
  all_static no_nodes = true
  all_static (and_node n ns) = is_static n && all_static ns

-- The style sheet and the page that such a tree stands for: an inline style is printed with its tags, another style not.
mutual
  sheet_of : AstNode → Bytes
  sheet_of (ast_node ast_html content children l c) = text_of content
  sheet_of (ast_node type content children l c) = sheets_of children

  sheets_of : AstNodes → Bytes
  sheets_of no_nodes = []
  sheets_of (and_node n ns) = sheet_of n ++ sheets_of ns

mutual
  pub page_of : AstNode → Bytes
  page_of (ast_node ast_html content children l c) = text_of content
  page_of (ast_node ast_cstyle content children l c) =
      let tag = style_open (parse_cstyle_tag_info content).attributes in
      if is_inline content then tag ++ (sheets_of children ++ codes "</style>") else []
  page_of (ast_node type content children l c) = pages_of children

  pages_of : AstNodes → Bytes
  pages_of no_nodes = []
  pages_of (and_node n ns) = page_of n ++ pages_of ns

and_not-true : (b : Bool) → (b && not true) ≡ false
and_not-true true = refl
and_not-true false = refl

and_true : (a b : Bool) → (a && b) ≡ true → (a ≡ true) × (b ≡ true)
and_true true b e = (refl, e)
and_true false b e = absurd (cc e)

mutual
  unfolding emit_css_node is_static sheet_of

  sheet_of-Prints : (n : AstNode) → is_static n ≡ true → Prints (emit_css_node n true) (sheet_of n)
  sheet_of-Prints (ast_node ast_html content children l c) e = written_if-Prints content
  sheet_of-Prints (ast_node ast_cstyle content children l c) e =
      subst (λ o. Prints o (sheets_of children))
        (sym (
          if_false (is_inline content && not true) (some []) (emit_css_nodes children true)
            (and_not-true (is_inline content))))
        (sheets_of-Prints children e)
  sheet_of-Prints (ast_node ast_root content children l c) e = sheets_of-Prints children e
  sheet_of-Prints (ast_node ast_celse content children l c) e = sheets_of-Prints children e
  sheet_of-Prints (ast_node ast_c_code content children l c) e = absurd (cc e)
  sheet_of-Prints (ast_node ast_variable content children l c) e = absurd (cc e)
  sheet_of-Prints (ast_node ast_cloop content children l c) e = absurd (cc e)
  sheet_of-Prints (ast_node ast_cif content children l c) e = absurd (cc e)

  sheets_of-Prints :
      (ns : AstNodes) → all_static ns ≡ true → Prints (emit_css_nodes ns true) (sheets_of ns)
  sheets_of-Prints no_nodes e = nothing-Prints
  sheets_of-Prints (and_node n ns) e =
      let (here, later) = and_true (is_static n) (all_static ns) e in
      then_text-Prints (emit_css_node n true) (emit_css_nodes ns true) (sheet_of n) (sheets_of ns)
        (sheet_of-Prints n here) (sheets_of-Prints ns later)

style_text-Prints :
    (info : CstyleTagInfo) (o : Option Bytes) (x : Bytes)
    → Prints o x
    → Prints
        (style_text info o)
        (if info.inline_style then style_open info.attributes ++ (x ++ codes "</style>") else [])
unfolding style_text
style_text-Prints info o x p =
    let close = some (print_literal (codes "</style>")) in
    let tag = style_open info.attributes in
    branch-Prints info.inline_style (then_text (some (print_literal tag)) (then_text o close))
      (some []) (tag ++ (x ++ codes "</style>")) []
      (then_text-Prints (some (print_literal tag)) (then_text o close) tag (x ++ codes "</style>")
        (print_literal-Prints tag)
        (then_text-Prints o close x (codes "</style>") p (print_literal-Prints (codes "</style>"))))
      nothing-Prints

mutual
  unfolding generate_html_node is_static page_of

  page_of-Prints : (n : AstNode) → is_static n ≡ true → Prints (generate_html_node n) (page_of n)
  page_of-Prints (ast_node ast_html content children l c) e = written_if-Prints content
  page_of-Prints (ast_node ast_cstyle content children l c) e =
      style_text-Prints (parse_cstyle_tag_info content) (emit_css_nodes children true)
        (sheets_of children) (sheets_of-Prints children e)
  page_of-Prints (ast_node ast_root content children l c) e = pages_of-Prints children e
  page_of-Prints (ast_node ast_celse content children l c) e = pages_of-Prints children e
  page_of-Prints (ast_node ast_c_code content children l c) e = absurd (cc e)
  page_of-Prints (ast_node ast_variable content children l c) e = absurd (cc e)
  page_of-Prints (ast_node ast_cloop content children l c) e = absurd (cc e)
  page_of-Prints (ast_node ast_cif content children l c) e = absurd (cc e)

  pages_of-Prints :
      (ns : AstNodes) → all_static ns ≡ true → Prints (generate_html_nodes ns) (pages_of ns)
  pages_of-Prints no_nodes e = nothing-Prints
  pages_of-Prints (and_node n ns) e =
      let (here, later) = and_true (is_static n) (all_static ns) e in
      then_text-Prints (generate_html_node n) (generate_html_nodes ns) (page_of n) (pages_of ns)
        (page_of-Prints n here) (pages_of-Prints ns later)

-- The style sheet outside of styles: what the styles that are not inline hold.
mutual
  pub outer_sheet_of : AstNode → Bytes
  outer_sheet_of (ast_node ast_html content children l c) = []
  outer_sheet_of (ast_node ast_cstyle content children l c) =
      if is_inline content then [] else sheets_of children
  outer_sheet_of (ast_node type content children l c) = outer_sheets_of children

  outer_sheets_of : AstNodes → Bytes
  outer_sheets_of no_nodes = []
  outer_sheets_of (and_node n ns) = outer_sheet_of n ++ outer_sheets_of ns

outer_style-Prints :
    (inline' : Bool) (o : Option Bytes) (x : Bytes)
    → Prints o x
    → Prints (if inline' && not false then some [] else o) (if inline' then [] else x)
outer_style-Prints true o x p = nothing-Prints
outer_style-Prints false o x p = p

mutual
  unfolding emit_css_node is_static outer_sheet_of

  outer_sheet_of-Prints :
      (n : AstNode) → is_static n ≡ true → Prints (emit_css_node n false) (outer_sheet_of n)
  outer_sheet_of-Prints (ast_node ast_html content children l c) e = nothing-Prints
  outer_sheet_of-Prints (ast_node ast_cstyle content children l c) e =
      outer_style-Prints (is_inline content) (emit_css_nodes children true) (sheets_of children)
        (sheets_of-Prints children e)
  outer_sheet_of-Prints (ast_node ast_root content children l c) e =
      outer_sheets_of-Prints children e
  outer_sheet_of-Prints (ast_node ast_celse content children l c) e =
      outer_sheets_of-Prints children e
  outer_sheet_of-Prints (ast_node ast_c_code content children l c) e = absurd (cc e)
  outer_sheet_of-Prints (ast_node ast_variable content children l c) e = absurd (cc e)
  outer_sheet_of-Prints (ast_node ast_cloop content children l c) e = absurd (cc e)
  outer_sheet_of-Prints (ast_node ast_cif content children l c) e = absurd (cc e)

  outer_sheets_of-Prints :
      (ns : AstNodes) → all_static ns ≡ true → Prints (emit_css_nodes ns false) (outer_sheets_of ns)
  outer_sheets_of-Prints no_nodes e = nothing-Prints
  outer_sheets_of-Prints (and_node n ns) e =
      let (here, later) = and_true (is_static n) (all_static ns) e in
      then_text-Prints (emit_css_node n false) (emit_css_nodes ns false) (outer_sheet_of n)
        (outer_sheets_of ns) (outer_sheet_of-Prints n here) (outer_sheets_of-Prints ns later)

-- Of a tree with nothing but HTML and styles, code is always generated; the code is a list of prints of literals,
-- and what these print is the page: the HTML as it stands, inline styles between their tags, no other style.
pub generate_html_node-static :
    (n : AstNode) → is_static n ≡ true → RunsTo (generate_html_node n) (page_of n)
generate_html_node-static n e = runs_alone (generate_html_node n) (page_of n) (page_of-Prints n e)

pub emit_css_node-static :
    (n : AstNode) → is_static n ≡ true → RunsTo (emit_css_node n false) (outer_sheet_of n)
emit_css_node-static n e =
    runs_alone (emit_css_node n false) (outer_sheet_of n) (outer_sheet_of-Prints n e)
