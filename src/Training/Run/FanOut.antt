-- ===== src/Training/Run/FanOut.antt =====
-- python/dist_graphSage.py, `run`: the fanouts, of which there is at least one.
use bear_rpc.Base.{
  ◌==◌, ◌≢◌, refl, sym, ap, ◌∙◌, List, [], ◌∷◌, ◌++◌, some, ℤ, Result, ok, ◌>>=◌, Bool-cases, inl,
  inr, raise, value_error, Option, none, Option-cases, ok-injective, >>=-eq_ok,
}
use bear_rpc.Text.{Str}
use bear_rpc.Text.Number.{int}
use bear_rpc.Training.Run.{split_commas, ints}

some_int : (piece : Str) (pieces : List Str) → ints (piece ∷ pieces) ≢ ok []
unfolding ints
some_int piece pieces h = elim (Option-cases (int piece)) [
  | inl unread ↦ absurd (
      no_value (
        sym (
          ap
            (λ (o : Option ℤ). elim o [
              | none ↦ raise value_error
              | some fanout ↦ (ints pieces >>= (λ fanouts. ok (fanout ∷ fanouts)))
            ])
            unread)
        ∙ h))
  | inr (fanout, read) ↦
      let (fanouts, _, made) =
        >>=-eq_ok (ints pieces) (λ fanouts. ok (fanout ∷ fanouts))
          (sym (
              ap
                (λ (o : Option ℤ). elim o [
                  | none ↦ raise value_error
                  | some fanout ↦ (ints pieces >>= (λ fanouts. ok (fanout ∷ fanouts)))
                ])
                read)
            ∙ h) in
      let same = ok-injective (fanout ∷ fanouts) [] made in cc
]
  where
    no_value : ◌≢◌ {A = Result (List ℤ)} (raise value_error) (ok [])
    no_value e = cc

-- A text has a piece in front of its first comma.
pub some_fanout : (piece s : Str) → ints (split_commas piece s) ≢ ok []
unfolding split_commas
some_fanout piece [] h = some_int piece [] h
some_fanout piece (c ∷ s) h = elim (Bool-cases (c == b',')) [
  | inl t ↦ some_int piece (split_commas [] s) (sym (rw t refl) ∙ h)
  | inr t ↦ some_fanout (piece ++ c ∷ []) s (sym (rw t refl) ∙ h)
]
