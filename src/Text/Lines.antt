-- ===== src/Text/Lines.antt =====
-- Reading a text file: universal newlines, the lines of a file, and `rstrip('\n')`.
use mathlib.Core.List.{reverse, reverse-cons, reverse-reverse}
use bear_rpc.Base.{
  ℕ, ◌≡◌, ◌≢◌, refl, sym, ap, ◌∙◌, Bool, true, false, List, [], ◌∷◌, ◌++◌, append-nil, append_assoc,
  arith, ◌==◌, if◌then◌else◌, All, All-append,
}
use bear_rpc.Text.{Str}
use bear_rpc.Text.Split.{is_space, IsPlain}

-- `open(path)` in text mode reads `\r\n` and `\r` as `\n`; `behind` is set after a `\r`.
unfoldable pub universal : Bool → Str → Str
universal behind [] = []
universal true (c ∷ s) = elim (c == b'\n') [
  | true ↦ universal false s
  | false ↦ elim (c == b'\r') [ true ↦ b'\n' ∷ universal true s | false ↦ c ∷ universal false s ]
]
universal false (c ∷ s) = elim (c == b'\r') [
  | true ↦ b'\n' ∷ universal true s
  | false ↦ c ∷ universal false s
]

-- The lines that `for line in f` gives, each with its `\n` if it has one.
unfoldable pub lines_from : Str → Str → List Str
lines_from [] [] = []
lines_from (x ∷ cur) [] = (x ∷ cur) ∷ []
lines_from cur (c ∷ s) = elim (c == b'\n') [
  | true ↦ (cur ++ c ∷ []) ∷ lines_from [] s
  | false ↦ lines_from (cur ++ c ∷ []) s
]

-- list(open(path)), for the text that the file holds
unfoldable pub file_lines : Str → List Str
unfolding universal lines_from
file_lines text = lines_from [] (universal false text)

drop_newlines : Str → Str
drop_newlines [] = []
drop_newlines (c ∷ s) = if c == b'\n' then drop_newlines s else c ∷ s

-- s.rstrip('\n')
unfoldable pub rstrip_newline : Str → Str
unfolding drop_newlines
rstrip_newline s = reverse (drop_newlines (reverse s))

-- A character that ends no line.
abbrev pub IsInline : ℕ → Type 0
IsInline c = (c ≢ b'\n') × (c ≢ b'\r')

plain-IsInline : (c : ℕ) → is_space c ≡ false → IsInline c
unfolding is_space
plain-IsInline c h = ground arith

pub plain_inlines : (s : Str) → IsPlain s → All IsInline s
plain_inlines [] h = tt
plain_inlines (c ∷ s) (h, hs) = (plain-IsInline c h, plain_inlines s hs)

universal_inline : (s : Str) → All IsInline s → universal false s ≡ s
unfolding universal
universal_inline [] h = refl
universal_inline (c ∷ s) ((_, h), hs) = ground (arith, universal_inline s hs)

lines_from-cons :
    (cur s : Str) (c : ℕ) → c ≢ b'\n' → lines_from cur (c ∷ s) ≡ lines_from (cur ++ c ∷ []) s
unfolding lines_from
lines_from-cons [] s c h = ground arith
lines_from-cons (x ∷ cur) s c h = ground arith

lines_from-newline :
    (cur s : Str) → lines_from cur (b'\n' ∷ s) ≡ (cur ++ b'\n' ∷ []) ∷ lines_from [] s
unfolding lines_from
lines_from-newline [] s = refl
lines_from-newline (x ∷ cur) s = refl

lines_from-append :
    (cur w s : Str) → All IsInline w → lines_from cur (w ++ s) ≡ lines_from (cur ++ w) s
lines_from-append cur [] s h = rw append-nil
lines_from-append cur (c ∷ w) s ((h, _), hs) =
    lines_from-cons cur (w ++ s) c h
    ∙ lines_from-append (cur ++ c ∷ []) w s hs
    ∙ ap (λ t. lines_from t s) (append_assoc cur (c ∷ []) w)

lines_from-nil : (s : Str) → s ≢ [] → lines_from s [] ≡ s ∷ []
unfolding lines_from
lines_from-nil [] h = absurd (h refl)
lines_from-nil (x ∷ cur) h = refl

-- A text without line ends is one line.
pub file_lines-inline : (s : Str) → s ≢ [] → All IsInline s → file_lines s ≡ s ∷ []
unfolding file_lines
file_lines-inline s h hs =
    rw (universal_inline s hs)
      (ap (lines_from []) (sym (append-nil s)) ∙ lines_from-append [] s [] hs ∙ lines_from-nil s h)

reverse-All {κ} : (P : ℕ → Type κ) (s : Str) → All P s → All P (reverse s)
reverse-All P [] h = tt
reverse-All P (c ∷ s) (h, hs) =
    rw reverse-cons (All-append P (reverse s) (c ∷ []) (reverse-All P s hs) (h, tt))

drop_newlines-inline : (s : Str) → All IsInline s → drop_newlines s ≡ s
unfolding drop_newlines
drop_newlines-inline [] h = refl
drop_newlines-inline (c ∷ s) ((h, _), _) = ground arith

pub rstrip_newline-inline : (s : Str) → All IsInline s → rstrip_newline s ≡ s
unfolding rstrip_newline
rstrip_newline-inline s h =
    rw (drop_newlines-inline (reverse s) (reverse-All IsInline s h)) (reverse-reverse s)

universal-append : (w s : Str) → All IsInline w → universal false (w ++ s) ≡ w ++ universal false s
unfolding universal
universal-append [] s h = refl
universal-append (c ∷ w) s ((_, h), hs) = ground (arith, universal-append w s hs)

-- A line and its `\n` are the first line of a file.
pub file_lines-line :
    (w s : Str) → All IsInline w → file_lines (w ++ b'\n' ∷ s) ≡ (w ++ b'\n' ∷ []) ∷ file_lines s
unfolding file_lines
file_lines-line w s h =
    ap (lines_from []) (universal-append w (b'\n' ∷ s) h ∙ ap (λ t. w ++ t) (universal_newline s))
    ∙ lines_from-append [] w (b'\n' ∷ universal false s) h
    ∙ lines_from-newline w (universal false s)
  where
    universal_newline : (s : Str) → universal false (b'\n' ∷ s) ≡ b'\n' ∷ universal false s
    universal_newline s = refl
