-- ===== src/Targeted/Text/Quote.antt =====
-- `shell_quote` against what a POSIX shell reads in one word.
use rd_spe_tool.Base.{
  ℕ, ◌≡◌, refl, ◌∙◌, Bool, true, false, if◌then◌else◌, ◌==◌, [], ◌∷◌, ◌++◌, Option, none, some,
  Text, Bool-cases, inl, inr, arith,
}
use rd_spe_tool.Targeted.Text.{quote_body, shell_quote}

cons_opt : ℕ → Option Text → Option Text
cons_opt c none = none
cons_opt c (some s) = some (c ∷ s)

-- The word that the shell reads: inside single quotes each byte stands for itself, outside a
-- backslash takes the next byte as it is, and other bytes outside are not read here.
pub read_word : Bool → Text → Option Text
unfolding cons_opt
read_word true [] = none
read_word false [] = some []
read_word true (c ∷ s) = if c == b'\'' then read_word false s else cons_opt c (read_word true s)
read_word false (c ∷ []) = if c == b'\'' then read_word true [] else none
read_word false (c ∷ d ∷ s) =
    let inside = read_word true (d ∷ s) in
    let escaped = cons_opt d (read_word false s) in
    if c == b'\'' then inside else if c == b'\\' then escaped else none

open_quote : (s : Text) → read_word false (b'\'' ∷ s) ≡ read_word true s
unfolding read_word
open_quote [] = refl
open_quote (c ∷ s) = refl

read_word-quote_body : (s : Text) → read_word true (quote_body s ++ b'\'' ∷ []) ≡ some s
unfolding read_word quote_body cons_opt
read_word-quote_body [] = refl
read_word-quote_body (c ∷ s) = elim (Bool-cases (c == b'\'')) [
  | inl e ↦
      let same : c ≡ b'\'' = ground arith in
      rw (same, open_quote (quote_body s ++ b'\'' ∷ []), read_word-quote_body s) refl
  | inr e ↦ rw (e, e, read_word-quote_body s) refl
]

-- A shell reads a quoted text back as that text, whatever bytes it holds.
pub read_word-shell_quote : (s : Text) → read_word false (shell_quote s) ≡ some s
unfolding read_word shell_quote
read_word-shell_quote s = open_quote (quote_body s ++ b'\'' ∷ []) ∙ read_word-quote_body s
