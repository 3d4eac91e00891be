-- ===== src/Text/Split.antt =====
-- `str.isspace`, `str.strip` and `str.split` with no argument.
use bear_rpc.Base.{
  ℕ, ◌≡◌, ◌≢◌, refl, ◌∙◌, Bool, true, false, ◌||◌, ◌&&◌, List, [], ◌∷◌, ◌++◌, append_assoc,
  append-nil, arith, leb, ◌==◌, if◌then◌else◌, All, All-append, Bool-cases, inl, inr, ap, sym,
}
use mathlib.Core.List.{reverse, reverse-cons, reverse-reverse}
use bear_rpc.Text.{Str}

-- Python's white space: the ASCII and the other Unicode code points of that property.
unfoldable pub is_space : ℕ → Bool
is_space c =
    (leb 9 c && leb c 13)
    || (leb 28 c && leb c 32)
    || (c == 0x85)
    || (c == 0xa0)
    || (c == 0x1680)
    || (leb 0x2000 c && leb c 0x200a)
    || (c == 0x2028)
    || (c == 0x2029)
    || (c == 0x202f)
    || (c == 0x205f)
    || (c == 0x3000)

-- The words of `s`, where `cur` holds the characters of the word that is being read.
unfoldable pub split_from : Str → Str → List Str
split_from [] [] = []
split_from (x ∷ cur) [] = (x ∷ cur) ∷ []
split_from [] (c ∷ s) = split_from (if is_space c then [] else c ∷ []) s
split_from (x ∷ cur) (c ∷ s) = elim (is_space c) [
  | true ↦ (x ∷ cur) ∷ split_from [] s
  | false ↦ split_from (x ∷ cur ++ c ∷ []) s
]

-- s.split()
unfoldable pub split : Str → List Str
unfolding split_from
split s = split_from [] s

unfoldable pub lstrip : Str → Str
lstrip [] = []
lstrip (c ∷ s) = if is_space c then lstrip s else c ∷ s

-- s.strip()
unfoldable pub strip : Str → Str
unfolding lstrip
strip s = reverse (lstrip (reverse (lstrip s)))

-- A text with no white space in it.
abbrev pub IsPlain : Str → Type 0
IsPlain = All (λ c. is_space c ≡ false)

-- A word: a plain text with a character in it.
abbrev pub IsWord : Str → Type 0
IsWord w = (w ≢ []) × IsPlain w

module _ (c : ℕ) (s : Str) where
  split_from-blank : is_space c ≡ true → split_from [] (c ∷ s) ≡ split_from [] s
  unfolding split_from
  split_from-blank h = ground arith

  split_from-begin : is_space c ≡ false → split_from [] (c ∷ s) ≡ split_from (c ∷ []) s
  unfolding split_from
  split_from-begin h = ground arith

  split_from-end :
      (x : ℕ) (cur : Str)
      → is_space c ≡ true
      → split_from (x ∷ cur) (c ∷ s) ≡ (x ∷ cur) ∷ split_from [] s
  unfolding split_from
  split_from-end x cur h = ground arith

  split_from-more :
      (x : ℕ) (cur : Str)
      → is_space c ≡ false
      → split_from (x ∷ cur) (c ∷ s) ≡ split_from (x ∷ cur ++ c ∷ []) s
  unfolding split_from
  split_from-more x cur h = ground arith

-- The rest of a word goes on to the word that is being read.
split_from-append :
    (x : ℕ) (cur w s : Str)
    → IsPlain w
    → split_from (x ∷ cur) (w ++ s) ≡ split_from (x ∷ cur ++ w) s
split_from-append x cur [] s _ = rw append-nil
split_from-append x cur (c ∷ w) s (h, hs) =
    split_from-more c (w ++ s) x cur h
    ∙ split_from-append x (cur ++ c ∷ []) w s hs
    ∙ rw append_assoc

pub is_space-blank : is_space b' ' ≡ true
unfolding is_space
is_space-blank = refl

-- A word and one blank are the first word of the split.
pub split-word : (w s : Str) → IsWord w → split (w ++ b' ' ∷ s) ≡ w ∷ split s
unfolding split
split-word [] s (h, _) = absurd (h refl)
split-word (c ∷ w) s (_, (h, hs)) =
    split_from-begin c (w ++ b' ' ∷ s) h
    ∙ split_from-append c [] w (b' ' ∷ s) hs
    ∙ split_from-end b' ' s c w is_space-blank

-- A text that is one word is its own split.
pub split-last : (w : Str) → IsWord w → split w ≡ w ∷ []
unfolding split
split-last [] (h, _) = absurd (h refl)
split-last (c ∷ w) (_, (h, hs)) =
    split_from-begin c w h
    ∙ ap (split_from (c ∷ [])) (sym (append-nil w))
    ∙ split_from-append c [] w [] hs
    ∙ unfold split_from in refl

-- Leading blanks do not count.
pub split-blank : (s : Str) → split (b' ' ∷ s) ≡ split s
unfolding split
split-blank s = split_from-blank b' ' s is_space-blank

-- No word of a split is empty, and none holds white space.
split_from-IsWord : (cur s : Str) → IsPlain cur → All IsWord (split_from cur s)
split_from-IsWord [] [] h = unfold split_from in tt
split_from-IsWord (x ∷ cur) [] h = unfold split_from in (((λ e. cc), h), tt)
split_from-IsWord [] (c ∷ s) h = elim (Bool-cases (is_space c)) [
  | inl e ↦ rw (split_from-blank c s e) (split_from-IsWord [] s tt)
  | inr e ↦ rw (split_from-begin c s e) (split_from-IsWord (c ∷ []) s (e, tt))
]
split_from-IsWord (x ∷ cur) (c ∷ s) h = elim (Bool-cases (is_space c)) [
  | inl e ↦ rw (split_from-end c s x cur e) (((λ e. cc), h), split_from-IsWord [] s tt)
  | inr e ↦
      rw (split_from-more c s x cur e)
        (split_from-IsWord (x ∷ cur ++ c ∷ []) s (All-append _ (x ∷ cur) (c ∷ []) h (e, tt)))
]

pub split-IsWord : (s : Str) → All IsWord (split s)
unfolding split
split-IsWord s = split_from-IsWord [] s tt

lstrip_plain : (s : Str) → IsPlain s → lstrip s ≡ s
unfolding lstrip
lstrip_plain [] h = refl
lstrip_plain (c ∷ s) (h, _) = ground arith

reverse-IsPlain : (s : Str) → IsPlain s → IsPlain (reverse s)
reverse-IsPlain [] h = tt
reverse-IsPlain (c ∷ s) (h, hs) =
    rw reverse-cons (All-append _ (reverse s) (c ∷ []) (reverse-IsPlain s hs) (h, tt))

-- There is nothing to strip from a text without white space.
pub strip_plain : (s : Str) → IsPlain s → strip s ≡ s
unfolding strip
strip_plain s h =
    rw (lstrip_plain s h, lstrip_plain (reverse s) (reverse-IsPlain s h)) (reverse-reverse s)

-- The words of two texts with a blank between them.
split_from-concat :
    (cur s t : Str) → split_from cur (s ++ b' ' ∷ t) ≡ split_from cur s ++ split_from [] t
split_from-concat [] [] t = split_from-blank b' ' t is_space-blank ∙ unfold split_from in refl
split_from-concat (x ∷ cur) [] t =
    split_from-end b' ' t x cur is_space-blank ∙ unfold split_from in refl
split_from-concat [] (c ∷ s) t = elim (Bool-cases (is_space c)) [
  | inl e ↦
      split_from-blank c (s ++ b' ' ∷ t) e
      ∙ split_from-concat [] s t
      ∙ ap (λ l. l ++ split_from [] t) (sym (split_from-blank c s e))
  | inr e ↦
      split_from-begin c (s ++ b' ' ∷ t) e
      ∙ split_from-concat (c ∷ []) s t
      ∙ ap (λ l. l ++ split_from [] t) (sym (split_from-begin c s e))
]
split_from-concat (x ∷ cur) (c ∷ s) t = elim (Bool-cases (is_space c)) [
  | inl e ↦
      split_from-end c (s ++ b' ' ∷ t) x cur e
      ∙ ap (λ l. (x ∷ cur) ∷ l) (split_from-concat [] s t)
      ∙ ap (λ l. l ++ split_from [] t) (sym (split_from-end c s x cur e))
  | inr e ↦
      split_from-more c (s ++ b' ' ∷ t) x cur e
      ∙ split_from-concat (x ∷ cur ++ c ∷ []) s t
      ∙ ap (λ l. l ++ split_from [] t) (sym (split_from-more c s x cur e))
]

pub split-append : (s t : Str) → split (s ++ b' ' ∷ t) ≡ split s ++ split t
unfolding split
split-append s t = split_from-concat [] s t

split_from-trailing :
    (cur s : Str) (c : ℕ) → is_space c ≡ true → split_from cur (s ++ c ∷ []) ≡ split_from cur s
split_from-trailing [] [] c h = split_from-blank c [] h
split_from-trailing (x ∷ cur) [] c h = split_from-end c [] x cur h ∙ unfold split_from in refl
split_from-trailing [] (d ∷ s) c h = elim (Bool-cases (is_space d)) [
  | inl e ↦
      split_from-blank d (s ++ c ∷ []) e
      ∙ split_from-trailing [] s c h
      ∙ sym (split_from-blank d s e)
  | inr e ↦
      split_from-begin d (s ++ c ∷ []) e
      ∙ split_from-trailing (d ∷ []) s c h
      ∙ sym (split_from-begin d s e)
]
split_from-trailing (x ∷ cur) (d ∷ s) c h = elim (Bool-cases (is_space d)) [
  | inl e ↦
      split_from-end d (s ++ c ∷ []) x cur e
      ∙ ap (λ l. (x ∷ cur) ∷ l) (split_from-trailing [] s c h)
      ∙ sym (split_from-end d s x cur e)
  | inr e ↦
      split_from-more d (s ++ c ∷ []) x cur e
      ∙ split_from-trailing (x ∷ cur ++ d ∷ []) s c h
      ∙ sym (split_from-more d s x cur e)
]

lstrip-cons_space : (c : ℕ) (s : Str) → is_space c ≡ true → lstrip (c ∷ s) ≡ lstrip s
unfolding lstrip
lstrip-cons_space c s h = rw h

lstrip-cons_plain : (c : ℕ) (s : Str) → is_space c ≡ false → lstrip (c ∷ s) ≡ c ∷ s
unfolding lstrip
lstrip-cons_plain c s h = rw h

split-lstrip : (s : Str) → split (lstrip s) ≡ split s
split-lstrip [] = unfold lstrip in refl
split-lstrip (c ∷ s) = elim (Bool-cases (is_space c)) [
  | inl e ↦
      ap split (lstrip-cons_space c s e)
      ∙ split-lstrip s
      ∙ unfold split in sym (split_from-blank c s e)
  | inr e ↦ ap split (lstrip-cons_plain c s e)
]

split-rstrip : (r : Str) → split (reverse (lstrip r)) ≡ split (reverse r)
split-rstrip [] = unfold lstrip in refl
split-rstrip (c ∷ r) = elim (Bool-cases (is_space c)) [
  | inl e ↦
      ap (λ t. split (reverse t)) (lstrip-cons_space c r e)
      ∙ split-rstrip r
      ∙ unfold split in
        sym (split_from-trailing [] (reverse r) c e) ∙ ap split (sym (reverse-cons c r))
  | inr e ↦ ap (λ t. split (reverse t)) (lstrip-cons_plain c r e)
]

-- Stripping a text leaves its words.
pub split-strip : (s : Str) → split (strip s) ≡ split s
unfolding strip
split-strip s =
    split-rstrip (reverse (lstrip s)) ∙ ap split (reverse-reverse (lstrip s)) ∙ split-lstrip s

-- A blank character behind a text adds no word.
pub split-trailing : (s : Str) (c : ℕ) → is_space c ≡ true → split (s ++ c ∷ []) ≡ split s
unfolding split
split-trailing s c h = split_from-trailing [] s c h
