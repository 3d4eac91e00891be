-- ===== src/Text/Replace.antt =====
-- What `in` and `str.replace` do, stated by the first occurrence of the text that is looked for.
use bear_rpc.Base.{
  ℕ, ◌-◌, ◌≡◌, refl, sym, ◌∙◌, ap, true, false, [], ◌∷◌, ◌++◌, arith, length, Bool-cases, inl, inr,
}
use bear_rpc.Text.{Str, starts_with, contains, replace, replace_from, starts_with-append_self}

-- No occurrence of `old` begins within `pre`, where `rest` follows it.
abbrev pub NoStart : Str → Str → Str → Type 0
NoStart old [] rest = Unit
NoStart old (c ∷ pre) rest = (starts_with (c ∷ pre ++ rest) old ≡ false) × NoStart old pre rest

-- `s` is `pre`, `old` and `post`, and the occurrence of `old` between them is the first.
pub record FirstAt (old s pre post : Str) : Type 0 where
  pub spelt : s ≡ pre ++ (old ++ post)
  pub first : NoStart old pre (old ++ post)

starts_with-split : (s p : Str) → starts_with s p ≡ true → (post : Str) × (s ≡ p ++ post)
unfolding starts_with
starts_with-split s [] h = (s, refl)
starts_with-split [] (d ∷ p) h = cc
starts_with-split (c ∷ s) (d ∷ p) h =
    let rec = starts_with-split s p (ground arith) in (rec.0, ground (arith, rec.1))

contains-cons :
    (old : Str) (c : ℕ) (s : Str)
    → starts_with (c ∷ s) old ≡ false
    → contains old (c ∷ s) ≡ contains old s
unfolding contains
contains-cons old c s h = rw h

-- A text that holds `old` is split at the first occurrence of it.
pub contains-split :
    (old s : Str) → contains old s ≡ true → (pre : Str) × (post : Str) × FirstAt old s pre post
contains-split old [] h =
    let found = starts_with-split [] old (unfold contains in h) in
    ([], found.0, record { spelt = found.1; first = tt })
contains-split old (c ∷ s) h = elim (Bool-cases (starts_with (c ∷ s) old)) [
  | inl e ↦
      let found = starts_with-split (c ∷ s) old e in
      ([], found.0, record { spelt = found.1; first = tt })
  | inr e ↦
      let found = contains-split old s (rw (contains-cons old c s e) at h) in
      (
        c ∷ found.0,
        found.1,
        record {
          spelt = ap (λ t. c ∷ t) found.2.spelt;
          first = (ap (λ t. starts_with (c ∷ t) old) (sym found.2.spelt) ∙ e, found.2.first);
        },
      )
]

module _ (d : ℕ) (o new : Str) where
  replace_from-cons :
      (c : ℕ) (s : Str)
      → starts_with (c ∷ s) (d ∷ o) ≡ false
      → replace_from (d ∷ o) new 0 (c ∷ s) ≡ c ∷ replace_from (d ∷ o) new 0 s
  unfolding replace_from
  replace_from-cons c s h = ground arith

  replace_from_found :
      (c : ℕ) (s : Str)
      → starts_with (c ∷ s) (d ∷ o) ≡ true
      → replace_from (d ∷ o) new 0 (c ∷ s) ≡ new ++ replace_from (d ∷ o) new (length (d ∷ o) - 1) s
  unfolding replace_from
  replace_from_found c s h = ground arith

  replace_from-skip :
      (p post : Str)
      → replace_from (d ∷ o) new (length p) (p ++ post) ≡ replace_from (d ∷ o) new 0 post
  unfolding replace_from
  replace_from-skip [] post = refl
  replace_from-skip (c ∷ p) post = replace_from-skip p post

  replace_from-first :
      (pre post : Str)
      → NoStart (d ∷ o) pre ((d ∷ o) ++ post)
      → replace_from (d ∷ o) new 0 (pre ++ ((d ∷ o) ++ post))
        ≡ pre ++ (new ++ replace_from (d ∷ o) new 0 post)
  replace_from-first [] post _ =
      replace_from_found d (o ++ post) (starts_with-append_self (d ∷ o) post)
      ∙ ap (λ t. new ++ t)
          (ap (λ k. replace_from (d ∷ o) new k (o ++ post)) (omega arith)
            ∙ replace_from-skip o post)
  replace_from-first (c ∷ pre) post (h, hs) =
      replace_from-cons c (pre ++ ((d ∷ o) ++ post)) h
      ∙ ap (λ t. c ∷ t) (replace_from-first pre post hs)

  -- The first occurrence is replaced, what stands before it is kept, and the rest is searched on.
  pub replace-first :
      (s pre post : Str)
      → FirstAt (d ∷ o) s pre post
      → replace s (d ∷ o) new ≡ pre ++ (new ++ replace post (d ∷ o) new)
  unfolding replace
  replace-first s pre post f = rw f.spelt (replace_from-first pre post f.first)

  replace_from-lacks : (s : Str) → contains (d ∷ o) s ≡ false → replace_from (d ∷ o) new 0 s ≡ s
  replace_from-lacks [] h = unfold replace_from in refl
  replace_from-lacks (c ∷ s) h =
      replace_from-cons c s (unfold contains in ground arith)
      ∙ ap (λ t. c ∷ t) (replace_from-lacks s (unfold contains in ground arith))

  -- A text that lacks `old` stays as it is.
  pub replace-lacks : (s : Str) → contains (d ∷ o) s ≡ false → replace s (d ∷ o) new ≡ s
  unfolding replace
  replace-lacks s h = replace_from-lacks s h
