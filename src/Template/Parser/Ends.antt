-- ===== src/Template/Parser/Ends.antt =====
-- The loops of parser.c end: over a source of tokens that runs dry, a bounded amount of fuel gives a tree.
use cweb.Base.{
  ℕ, zero, suc, ◌≤◌, ◌<◌, ◌≡◌, ◌≢◌, refl, ap, sym, ◌∙◌, subst, Bool, true, false, Option, none,
  some, Bytes, arith, if_cases, ◌>>=◌, if◌then◌else◌,
}
use cweb.Template.Lexer.{TokenType, Token, token_cloop, token_cif, token_cstyle, token_eof}
use cweb.Template.Parser.{
  AstNodes, no_nodes, Parser, Body, parser_create, parser_advance, skip_token, parse_celse,
  parse_element, parse_body, parser_parse, ends_root, ends_cstyle, ends_cloop, ends_cif, ends_celse,
  is_celse, is_cendif, is_cendloop, is_cendstyle,
}

-- What the parser asks of its source: in valid states each token but the end of file leaves less.
pub record Drains {S : Type 0} (next : S → S × Token) : Type 1 where
  pub Valid : S → Type 0
  pub remaining : S → ℕ
  pub next_valid : (s : S) → Valid s → Valid (next s).0
  pub leaves_less :
      (s : S) → Valid s → (next s).1.type ≢ token_eof → remaining (next s).0 < remaining s

abbrev is_eof : TokenType → Bool
is_eof token_eof = true
is_eof _ = false

eof_of : (t : TokenType) → is_eof t ≡ false → t ≢ token_eof
eof_of t h e = cc (sym h ∙ ap is_eof e)

module _ {S : Type 0} (next : S → S × Token) (d : Drains next) where
  abbrev pub left : Parser S → ℕ
  left p = if is_eof p.current_token.type then 0 else suc (d.remaining p.lexer)

  -- A run of part of the parser that succeeds, with no more tokens left than `bound`.
  record Done {A : Type 0} (bound : ℕ) (o : Option (Parser S × A)) : Type 0 where
    parser : Parser S
    made : A
    gives : o ≡ some (parser, made)
    valid : d.Valid parser.lexer
    below : left parser ≤ bound

  Done-bind :
      {A B : Type 0} (a b : ℕ) (m : Option (Parser S × A))
      (f : Parser S × A → Option (Parser S × B))
      → Done a m
      → ((q : Parser S) (x : A) → d.Valid q.lexer → left q ≤ a → Done b (f (q, x)))
      → Done b (m >>= f)
  Done-bind a b m f r k =
      subst (λ o. Done b (o >>= f)) (sym r.gives) (k r.parser r.made r.valid r.below)

  some-Done :
      {A : Type 0} (bound : ℕ) (p : Parser S) (x : A)
      → d.Valid p.lexer
      → left p ≤ bound
      → Done bound (some (p, x))
  some-Done bound p x v h = record { parser = p; made = x; gives = refl; valid = v; below = h }

  advance_valid : (p : Parser S) → d.Valid p.lexer → d.Valid (parser_advance next p).lexer
  unfolding parser_advance
  advance_valid p v = d.next_valid p.lexer v

  advance_left :
      (p : Parser S) → d.Valid p.lexer → left (parser_advance next p) ≤ d.remaining p.lexer
  unfolding parser_advance
  advance_left p v =
      if_cases (λ k. k ≤ d.remaining p.lexer) (is_eof (next p.lexer).1.type) _ _ (λ e. omega arith)
        (λ e. omega (arith, d.leaves_less p.lexer v (eof_of _ e)))

  advance_less :
      (p : Parser S)
      → d.Valid p.lexer
      → is_eof p.current_token.type ≡ false
      → left (parser_advance next p) < left p
  advance_less p v n = rw n (omega (arith, advance_left p v))

not_eof : (w : TokenType → Bool) (t : TokenType) → w t ≢ w token_eof → is_eof t ≡ false
not_eof w token_eof h = absurd (h refl)
not_eof w _ h = refl

differ : {a b : Bool} → a ≡ true → b ≡ false → a ≢ b
differ h k e = cc (sym h ∙ e ∙ k)

differ' : {a b : Bool} → a ≡ false → b ≡ true → a ≢ b
differ' h k e = cc (sym h ∙ e ∙ k)

abbrev at_token : {S : Type 0} → S → TokenType → Option Bytes → ℕ → ℕ → Parser S
at_token s type value line column = record {
  lexer = s;
  current_token = record { type = type; value = value; line = line; column = column };
}

module _ {S : Type 0} (next : S → S × Token) (d : Drains next) where
  skip-Done :
      {A : Type 0} (wanted : TokenType → Bool) (bound : ℕ) (p : Parser S) (x : A)
      → wanted token_eof ≡ false
      → d.Valid p.lexer
      → left next d p ≤ bound
      → Done next d bound (some (skip_token next wanted p, x))
  unfolding skip_token
  skip-Done wanted bound p x w v h =
      if_cases (λ q. Done next d bound (some (q, x))) (wanted p.current_token.type) _ _
        (λ e.
          some-Done next d bound _ x (advance_valid next d p v)
            (omega (arith, advance_less next d p v (not_eof wanted _ (differ e w)))))
        (λ e. some-Done next d bound p x v h)

  -- The loops over bodies that need less than `n` tokens end.
  abbrev BodyEnds : ℕ → Body S → Type 0
  BodyEnds n body =
      (ends : TokenType → Bool) (p : Parser S)
      → ends token_eof ≡ true
      → d.Valid p.lexer
      → left next d p < n
      → Done next d (left next d p) (body ends p)

  celse-Done :
      (n : ℕ) (body : Body S) (p : Parser S) (children : AstNodes)
      → BodyEnds n body
      → d.Valid p.lexer
      → left next d p < n
      → Done next d (left next d p) (parse_celse next body p children)
  unfolding parse_celse
  celse-Done n body p children b v h =
      if_cases (Done next d (left next d p)) (is_celse p.current_token.type) _ _
        (λ e.
          let less = advance_less next d p v (not_eof is_celse _ (differ e refl)) in
          Done-bind next d _ _ _ _
            (b ends_celse (parser_advance next p) refl (advance_valid next d p v) (omega arith))
            (λ q x w k. some-Done next d _ q _ w (omega arith)))
        (λ e. some-Done next d _ p children v (omega arith))

  -- A loop or a style: the body behind the current token, and the token that closes it.
  inside-Done :
      {A : Type 0} (n : ℕ) (body : Body S) (ends wanted : TokenType → Bool) (p : Parser S)
      (made : AstNodes → A)
      → ends token_eof ≡ true
      → wanted token_eof ≡ false
      → BodyEnds n body
      → d.Valid p.lexer
      → d.remaining p.lexer < n
      → Done next d
          (d.remaining p.lexer)
          (body ends (parser_advance next p) >>= λ (q, x). some (skip_token next wanted q, made x))
  inside-Done n body ends wanted p made stop other b v h =
      let less = advance_left next d p v in
      Done-bind next d _ _ _ _
        (b ends (parser_advance next p) stop (advance_valid next d p v) (omega arith))
        (λ q x w k. skip-Done wanted _ q _ other w (omega arith))

  left_of :
      (p : Parser S)
      → is_eof p.current_token.type ≡ false
      → left next d p ≡ suc (d.remaining p.lexer)
  left_of p n = rw n refl

  -- One element takes at least one token.
  element-Done :
      (n : ℕ) (body : Body S) (s : S) (type : TokenType) (value : Option Bytes) (line column : ℕ)
      → BodyEnds n body
      → d.Valid s
      → is_eof type ≡ false
      → d.remaining s < n
      → Done next d (d.remaining s) (parse_element next body (at_token s type value line column))
  unfolding parse_element
  element-Done n body s token_cif value line column b v e h =
      let p = at_token s token_cif value line column in
      let less = advance_left next d p v in
      Done-bind next d _ _ _ _
        (b ends_cif (parser_advance next p) refl (advance_valid next d p v) (omega arith))
        (λ q x w k.
          Done-bind next d _ _ _ _ (celse-Done n body q x b w (omega arith))
            (λ r y u l. skip-Done is_cendif _ r _ refl u (omega arith)))
  element-Done n body s token_cloop value line column b v e h =
      inside-Done n body ends_cloop is_cendloop (at_token s token_cloop value line column) _ refl
        refl b v h
  element-Done n body s token_cstyle value line column b v e h =
      inside-Done n body ends_cstyle is_cendstyle (at_token s token_cstyle value line column) _ refl
        refl b v h
  element-Done n body s type value line column b v e h =
      let p = at_token s type value line column in
      some-Done next d _ _ _ (advance_valid next d p v) (advance_left next d p v)

  body-Done : (n : ℕ) → BodyEnds n (parse_body next n)
  unfolding parse_body
  body-Done zero ends p stop v h = absurd (omega arith)
  body-Done (suc n) ends p stop v h =
      if_cases (Done next d (left next d p)) (ends p.current_token.type) _ _
        (λ e. some-Done next d _ p no_nodes v (omega arith))
        (λ e.
          let type = p.current_token.type in
          let more = not_eof ends type (differ' e stop) in
          let room : d.remaining p.lexer < n = omega (arith, left_of p more, h) in
          Done-bind next d _ _ _ _
            (element-Done n _ p.lexer type p.current_token.value p.current_token.line
              p.current_token.column (body-Done n) v more room)
            (λ q x w k.
              Done-bind next d _ _ _ _ (body-Done n ends q stop w (omega arith))
                (λ r y u l. some-Done next d _ r _ u (omega (arith, left_of p more, k, l)))))

  -- Over a source of tokens that runs dry, the parser ends with a tree when its fuel is more than what
  -- the source has left.
  pub parser_parse-total :
      (fuel : ℕ) (s : S)
      → d.Valid s
      → d.remaining s < fuel
      → (children : AstNodes) × (parser_parse next fuel (parser_create next s) ≡ some children)
  unfolding parser_parse parser_advance
  parser_parse-total fuel s v h =
      let p = at_token s token_eof none 0 0 in
      let less = advance_left next d p v in
      let run =
        body-Done fuel ends_root (parser_create next s) refl (d.next_valid s v) (omega arith) in
      (run.made, ap (λ o. o >>= λ (q, children). some children) run.gives)
