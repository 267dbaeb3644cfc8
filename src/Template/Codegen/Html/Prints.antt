-- ===== src/Template/Codegen/Html/Prints.antt =====
-- The programs that consist of prints of literals, and what they print.
use cweb.Base.{
  ℕ, zero, suc, ◌≡◌, refl, ap, sym, ◌∙◌, Bool, true, false, [], ◌∷◌, ◌++◌, append_assoc, append-nil,
  Option, none, some, ◌==◌, ◌>>=◌, if◌then◌else◌, Bytes, codes,
}
use cweb.Template.Codegen.Output.{write_escaped_string}
use cweb.Template.Codegen.Output.Literal.{read_literal, read-write_escaped_string}
use cweb.Template.Codegen.Css.{print_literal, literal_text, then_text, written_if, has_text}

abbrev strip_prefix : Bytes → Bytes → Option Bytes
strip_prefix [] s = some s
strip_prefix (p ∷ ps) [] = none
strip_prefix (p ∷ ps) (c ∷ cs) = let rest = strip_prefix ps cs in if p == c then rest else none

-- The rest of a call behind its literal, and the program behind it.
abbrev after_literal : (Bytes → Option Bytes) → Option (Bytes × Bytes) → Option Bytes
after_literal next none = none
after_literal next (some (s, rest)) = do
  program ← strip_prefix (codes ");\n") rest
  printed ← next program
  some (s ++ printed)

-- What a program that consists of calls of cweb_output_raw on literals prints. `none` is a program of another kind, or
-- of more calls than the fuel.
pub run_prints : ℕ → Bytes → Option Bytes
unfolding read_literal
run_prints n [] = some []
run_prints zero (c ∷ cs) = none
run_prints (suc n) (c ∷ cs) =
    after_literal (run_prints n)
      (strip_prefix (codes "    cweb_output_raw(") (c ∷ cs) >>= read_literal)

abbrev pub text_of : Option Bytes → Bytes
text_of none = []
text_of (some content) = content

-- The text is a program that prints that, whatever program follows.
abbrev pub Prints : Option Bytes → Bytes → Type 0
Prints o out =
    (text : Bytes) × (o ≡ some text)
    × ((rest tail : Bytes) (m : ℕ)
        → run_prints m rest ≡ some tail
        → (k : ℕ) × (run_prints k (text ++ rest) ≡ some (out ++ tail)))

pub nothing-Prints : Prints (some []) []
nothing-Prints = ([], refl, λ rest tail m e. (m, e))

pub print_literal-Prints : (s : Bytes) → Prints (some (print_literal s)) s
unfolding print_literal run_prints
print_literal-Prints s = (
  print_literal s,
  refl,
  λ rest tail m e.
      let read : read_literal ((write_escaped_string s ++ codes ");\n") ++ rest)
          ≡ some (s, codes ");\n" ++ rest) =
        ap read_literal (append_assoc (write_escaped_string s) (codes ");\n") rest)
        ∙ read-write_escaped_string s (codes ");\n" ++ rest) in
      (
        suc m,
        ap (after_literal (run_prints m)) read ∙ ap (λ o. o >>= λ printed. some (s ++ printed)) e,
      ),
)

pub then_text-Prints :
    (a b : Option Bytes) (x y : Bytes) → Prints a x → Prints b y → Prints (then_text a b) (x ++ y)
then_text-Prints a b x y (s, ea, f) (t, eb, g) = (
  s ++ t,
  cc (ea, eb),
  λ rest tail m e.
      let (k, ek) = g rest tail m e in
      let (j, ej) = f (t ++ rest) (y ++ tail) k ek in
      (j, ap (run_prints j) (append_assoc s t rest) ∙ ej ∙ ap some (sym (append_assoc x y tail))),
)

pub written_if-Prints :
    (content : Option Bytes)
    → Prints (written_if (has_text content) (literal_text content)) (text_of content)
written_if-Prints none = nothing-Prints
written_if-Prints (some []) = nothing-Prints
written_if-Prints (some (c ∷ cs)) = print_literal-Prints (c ∷ cs)

pub branch-Prints :
    (b : Bool) (o o' : Option Bytes) (x y : Bytes)
    → Prints o x
    → Prints o' y
    → Prints (if b then o else o') (if b then x else y)
branch-Prints true o o' x y p q = p
branch-Prints false o o' x y p q = q

-- The text is a program that prints that.
abbrev pub RunsTo : Option Bytes → Bytes → Type 0
RunsTo o out =
    (program : Bytes) × (o ≡ some program) × (fuel : ℕ) × (run_prints fuel program ≡ some out)

pub runs_alone : (o : Option Bytes) (out : Bytes) → Prints o out → RunsTo o out
unfolding run_prints
runs_alone o out (program, written, run) =
    let (fuel, prints) = run [] [] 0 refl in
    (
      program,
      written,
      fuel,
      ap (run_prints fuel) (sym (append-nil program)) ∙ prints ∙ ap some (append-nil out),
    )
