-- ===== src/Cli/Inputs/Lists.antt =====
-- src/main.rs: a list of inputs that is written line by line is read back.
use par2rust.Base.{
  ℕ, ◌≡◌, ◌≢◌, refl, sym, ap, ◌∙◌, arith, List, [], ◌∷◌, ◌++◌, append-nil, map, All, All-append,
  true, false, ◌==◌,
}
use par2rust.Cli.Inputs.{
  push_char, lines, is_whitespace, trim_start, unless_blank, trim_end, trim, names_path, kept,
  read_lines,
}

-- A line of a list: a path or a comment with white space before it, or white space alone.
pub data Line : Type 0 where
  path_line : (before path after : List ℕ) → Line
  comment_line : (before comment : List ℕ) → Line
  blank_line : (blank : List ℕ) → Line

abbrev pub IsBlank : List ℕ → Type 0
IsBlank = All (λ c. (is_whitespace c ≡ true) × (c ≢ 10))

abbrev pub IsText : List ℕ → Type 0
IsText = All (λ c. c ≢ 10)

-- A path with a first character that is not `#`, and no white space at either end.
pub record IsName (path : List ℕ) : Type 0 where
  pub first : ℕ
  pub others : List ℕ
  pub whole : path ≡ first ∷ others
  pub text : IsText path
  pub no_comment : first ≢ b'#'
  pub starts : is_whitespace first ≡ false
  pub ends : trim_end path ≡ path

abbrev pub IsLine : Line → Type 0
IsLine (path_line before path after) = IsBlank before × IsName path × IsBlank after
IsLine (comment_line before comment) = IsBlank before × IsText comment
IsLine (blank_line blank) = IsBlank blank

abbrev pub text_of : Line → List ℕ
text_of (path_line before path after) = before ++ (path ++ after)
text_of (comment_line before comment) = before ++ b'#' ∷ comment
text_of (blank_line blank) = blank

abbrev pub list_text : List Line → List ℕ
list_text [] = []
list_text (line ∷ rest) = text_of line ++ 10 ∷ list_text rest

abbrev pub paths_of : List Line → List (List ℕ)
paths_of [] = []
paths_of (path_line before path after ∷ rest) = path ∷ paths_of rest
paths_of (comment_line before comment ∷ rest) = paths_of rest
paths_of (blank_line blank ∷ rest) = paths_of rest

lines-line : (line rest : List ℕ) → IsText line → lines (line ++ 10 ∷ rest) ≡ line ∷ lines rest
unfolding lines push_char
lines-line [] rest h = refl
lines-line (c ∷ line) rest h =
    let inside : (c == 10) ≡ false = ground (arith, h.0) in
    rw (inside, lines-line line rest h.1) refl

trim_start-blank :
    (blank rest : List ℕ) → IsBlank blank → trim_start (blank ++ rest) ≡ trim_start rest
unfolding trim_start
trim_start-blank [] rest h = refl
trim_start-blank (c ∷ blank) rest h = rw (h.0.0) (trim_start-blank blank rest h.1)

trim_end-blank : (blank : List ℕ) → IsBlank blank → trim_end blank ≡ []
unfolding trim_end unless_blank
trim_end-blank [] h = refl
trim_end-blank (c ∷ blank) h = rw (trim_end-blank blank h.1, h.0.0) refl

trim_end-append : (text blank : List ℕ) → IsBlank blank → trim_end (text ++ blank) ≡ trim_end text
unfolding trim_end
trim_end-append [] blank h = trim_end-blank blank h
trim_end-append (c ∷ text) blank h = ap (unless_blank c) (trim_end-append text blank h)

trim-path :
    (before path after : List ℕ)
    → IsBlank before
    → IsName path
    → IsBlank after
    → trim (before ++ (path ++ after)) ≡ path
unfolding trim
trim-path before path after b n a =
    ap trim_end (
      trim_start-blank before (path ++ after) b
      ∙ ap (λ (p : List ℕ). trim_start (p ++ after)) n.whole
      ∙ unblank
      ∙ ap (λ (p : List ℕ). p ++ after) (sym n.whole))
    ∙ trim_end-append path after a
    ∙ n.ends
  where
    unblank : trim_start (n.first ∷ (n.others ++ after)) ≡ n.first ∷ (n.others ++ after)
    unblank = let starts = n.starts in rw starts refl

-- A comment stays one.
first-unless_blank : (rest : List ℕ) → names_path (unless_blank b'#' rest) ≡ false
unfolding unless_blank names_path is_whitespace
first-unless_blank [] = refl
first-unless_blank (c ∷ rest) = refl

trim-comment :
    (before comment : List ℕ)
    → IsBlank before
    → names_path (trim (before ++ b'#' ∷ comment)) ≡ false
unfolding trim trim_start trim_end is_whitespace
trim-comment before comment b =
    ap (λ (t : List ℕ). names_path (trim_end t)) (trim_start-blank before (b'#' ∷ comment) b)
    ∙ first-unless_blank (trim_end comment)

trim-blank : (blank : List ℕ) → IsBlank blank → names_path (trim blank) ≡ false
unfolding trim trim_start trim_end names_path
trim-blank blank b =
    ap (λ (t : List ℕ). names_path (trim_end (trim_start t))) (sym (append-nil blank))
    ∙ ap (λ (t : List ℕ). names_path (trim_end t)) (trim_start-blank blank [] b)

IsBlank-IsText : (blank : List ℕ) → IsBlank blank → IsText blank
IsBlank-IsText [] h = tt
IsBlank-IsText (c ∷ blank) h = (h.0.1, IsBlank-IsText blank h.1)

text_of-IsText : (line : Line) → IsLine line → IsText (text_of line)
text_of-IsText (path_line before path after) h =
    All-append (λ c. c ≢ 10) before (path ++ after) (IsBlank-IsText before h.0)
      (All-append (λ c. c ≢ 10) path after h.1.text (IsBlank-IsText after h.2))
text_of-IsText (comment_line before comment) h =
    All-append (λ c. c ≢ 10) before (b'#' ∷ comment) (IsBlank-IsText before h.0)
      (λ e. omega (arith, e), h.1)
text_of-IsText (blank_line blank) h = IsBlank-IsText blank h

named-first : (path : List ℕ) → IsName path → names_path path ≡ true
unfolding names_path
named-first path n =
    let other = n.no_comment in
    let test : (n.first == b'#') ≡ false = ground (arith, other) in
    ap names_path n.whole ∙ rw test refl

kept-line :
    (line : Line) (lines : List Line) (rest : List (List ℕ))
    → IsLine line
    → kept rest ≡ paths_of lines
    → kept (trim (text_of line) ∷ rest) ≡ paths_of (line ∷ lines)
unfolding kept
kept-line (path_line before path after) lines rest h e =
    rw (trim-path before path after h.0 h.1 h.2, named-first path h.1) (ap (◌∷◌ path) e)
kept-line (comment_line before comment) lines rest h e = rw (trim-comment before comment h.0) e
kept-line (blank_line blank) lines rest h e = rw (trim-blank blank h) e

-- A list of lines, each a path with white space around it, a comment with white space before it, or white
-- space, is read back as the paths in order. A path has no line break, no `#` in front and no white space at
-- its ends.
pub read_lines-list_text :
    (list : List Line) → All IsLine list → read_lines (list_text list) ≡ paths_of list
unfolding read_lines
read_lines-list_text [] h = refl
read_lines-list_text (line ∷ list) h =
    ap (λ (ls : List (List ℕ)). kept (map trim ls))
      (lines-line (text_of line) (list_text list) (text_of-IsText line h.0))
    ∙ kept-line line list (map trim (lines (list_text list))) h.0 (read_lines-list_text list h.1)
