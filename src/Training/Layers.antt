-- ===== src/Training/Layers.antt =====
-- python/dist_graphSage.py: the layers of the model and their composition in `forward`.
use bear_rpc.Base.{
  ℕ, zero, suc, ◌+◌, ◌-◌, ◌≡◌, refl, sym, ap, ◌∙◌, subst, Bool, true, false, List, [], ◌∷◌, ◌++◌,
  map, arith, length, length-append, if◌then◌else◌, ◌==◌, Result, ok, raise, ◌>>=◌,
}
use bear_rpc.Training.{SageConv, hidden_layers, layers, forward_from, forward}

-- The layers fit together: the first takes the width `from`, each next one what the one before it
-- makes, and the last makes the width `to`.
pub Chain : ℕ → List SageConv → ℕ → Type 0
Chain from [] to = from ≡ to
Chain from (c ∷ more) to = (c.in_feats ≡ from) × Chain c.out_feats more to

hidden-Chain :
    (n_hidden n_classes n : ℕ)
    → Chain n_hidden
        (hidden_layers n_hidden n ++ record { in_feats = n_hidden; out_feats = n_classes } ∷ [])
        n_classes
unfolding Chain hidden_layers
hidden-Chain n_hidden n_classes zero = (refl, refl)
hidden-Chain n_hidden n_classes (suc n) = (refl, hidden-Chain n_hidden n_classes n)

length-hidden_layers : (n_hidden n : ℕ) → length (hidden_layers n_hidden n) ≡ n
unfolding hidden_layers
length-hidden_layers n_hidden zero = refl
length-hidden_layers n_hidden (suc n) = omega (arith, length-hidden_layers n_hidden n)

layers-Chain :
    (in_feats n_hidden n_classes n_layers : ℕ)
    → Chain in_feats (layers in_feats n_hidden n_classes n_layers) n_classes
unfolding layers Chain
layers-Chain in_feats n_hidden n_classes n_layers =
    (refl, hidden-Chain n_hidden n_classes (n_layers - 2))

-- A model has as many layers as `n_layers` says, but never fewer than two.
length-layers :
    (in_feats n_hidden n_classes n_layers : ℕ)
    → length (layers in_feats n_hidden n_classes n_layers) ≡ n_layers - 2 + 2
unfolding layers
length-layers in_feats n_hidden n_classes n_layers = omega (
  arith,
  length-append (hidden_layers n_hidden (n_layers - 2))
      (record { in_feats = n_hidden; out_feats = n_classes } ∷ []),
  length-hidden_layers n_hidden (n_layers - 2),
)

module _ {B H : Type 0} (apply : SageConv → B → H → Result H) (activation : H → H)
    (width : H → ℕ) where
  -- A layer takes a tensor of its input width and makes one of its output width, as SAGEConv
  -- documents.
  unfoldable pub IsConv : Type 0
  IsConv =
      (c : SageConv) (b : B) (h : H)
      → width h ≡ c.in_feats
      → (h' : H) × (apply c b h ≡ ok h') × (width h' ≡ c.out_feats)

  -- The activation and the dropout keep the width.
  unfoldable pub KeepsWidth : Type 0
  KeepsWidth = (h : H) → width (activation h) ≡ width h

  width-activated :
      (t : Bool) (h : H) → KeepsWidth → width (if t then h else activation h) ≡ width h
  unfolding KeepsWidth
  width-activated true h keeps = refl
  width-activated false h keeps = keeps h

  forward_from_lem :
      (count l : ℕ) (more : List SageConv) (blocks : List B) (h : H) (to : ℕ)
      → IsConv
      → KeepsWidth
      → Chain (width h) more to
      → length more ≡ length blocks
      → (h' : H) × (forward_from apply activation count l more blocks h ≡ ok h') × (width h' ≡ to)
  unfolding forward_from Chain IsConv
  forward_from_lem count l [] [] h to conv keeps chain e = (h, refl, chain)
  forward_from_lem count l [] (b ∷ blocks) h to conv keeps chain e = ground arith
  forward_from_lem count l (c ∷ more) [] h to conv keeps chain e = ground arith
  forward_from_lem count l (c ∷ more) (b ∷ blocks) h to conv keeps chain e =
      let (h₁, applied, wide) = conv c b h (sym chain.0) in
      let h₂ : H = if l + 1 == count then h₁ else activation h₁ in
      let (h', returned, wide') =
        forward_from_lem count (l + 1) more blocks h₂ to conv keeps
          (subst (λ n. Chain n more to) (sym (width-activated (l + 1 == count) h₁ keeps ∙ wide))
            chain.1)
          (omega arith) in
      (
        h',
        ap
              (λ r. r >>= (λ h₃.
                forward_from apply activation count (l + 1) more blocks
                  (if l + 1 == count then h₃ else activation h₃)))
              applied
            ∙ returned,
        wide',
      )

  -- On as many blocks as the model has layers, which are `n_layers` but at least two, `forward`
  -- accepts a tensor of the input width, no layer refuses what the one before it made, and the result
  -- has one column for each class.
  pub forward_lem :
      (n_hidden n_classes n_layers : ℕ) (blocks : List B) (x : H)
      → IsConv
      → KeepsWidth
      → length blocks ≡ n_layers - 2 + 2
      → (y : H) × (forward apply activation (layers (width x) n_hidden n_classes n_layers) blocks x
          ≡ ok y)
        × (width y ≡ n_classes)
  unfolding forward
  forward_lem n_hidden n_classes n_layers blocks x conv keeps e =
      let self_layers = layers (width x) n_hidden n_classes n_layers in
      forward_from_lem (length self_layers) 0 self_layers blocks x n_classes conv keeps
        (layers-Chain (width x) n_hidden n_classes n_layers)
        (length-layers (width x) n_hidden n_classes n_layers ∙ sym e)

  -- A model made for one layer still has two: on the one block of one fanout it stops behind the
  -- first layer, and the result has `n_hidden` columns, whatever the number of classes is.
  pub forward-one_layer :
      (n_hidden n_classes : ℕ) (block : B) (x : H)
      → IsConv
      → KeepsWidth
      → (y : H) × (forward apply activation (layers (width x) n_hidden n_classes 1) (block ∷ []) x
          ≡ ok y)
        × (width y ≡ n_hidden)
  unfolding forward forward_from layers hidden_layers IsConv KeepsWidth
  forward-one_layer n_hidden n_classes block x conv keeps =
      let (h, applied, wide) =
        conv (record { in_feats = width x; out_feats = n_hidden }) block x refl in
      (activation h, rw applied refl, keeps h ∙ wide)

-- Layers on their blocks, each with the activation behind it.
module _ {B H : Type 0} (apply : SageConv → B → H → Result H) (activation : H → H) where
  pub hidden_pass : List (SageConv × B) → H → Result H
  hidden_pass [] h = ok h
  hidden_pass ((layer, block) ∷ more) h = do
    h' ← apply layer block h
    hidden_pass more (activation h')

  length-map : (front : List (SageConv × B)) → length (map (λ (c, _). c) front) ≡ length front
  length-map [] = refl
  length-map (p ∷ front) = ap suc (length-map front)

  last_step :
      (r : Result H) (t : Bool) → t ≡ true → (r >>= (λ h. ok (if t then h else activation h))) ≡ r
  last_step (ok h) t e = rw e refl
  last_step (raise x) t e = refl

  inner_step :
      (r : Result H) (t : Bool) (rest inner outer : H → Result H)
      → t ≡ false
      → ((h : H) → rest h ≡ (inner h >>= outer))
      → (r >>= (λ h. rest (if t then h else activation h)))
        ≡ ((r >>= (λ h. inner (activation h))) >>= outer)
  inner_step (ok h) t rest inner outer e same = rw e (same (activation h))
  inner_step (raise x) t rest inner outer e same = refl

  forward_from-snoc :
      (count l : ℕ) (front : List (SageConv × B)) (last : SageConv) (block : B) (h : H)
      → l + length front + 1 ≡ count
      → forward_from apply activation count l
          (map (λ (c, _). c) front ++ last ∷ [])
          (map (λ (_, b). b) front ++ block ∷ [])
          h
        ≡ (do h' ← hidden_pass front h; apply last block h')
  unfolding forward_from hidden_pass
  forward_from-snoc count l [] last block h e =
      last_step (apply last block h) (l + 1 == count) (ground arith)
  forward_from-snoc count l ((c, b) ∷ front) last block h e =
      inner_step (apply c b h) (l + 1 == count) _ (hidden_pass front) (apply last block)
        (ground arith) (λ h'. forward_from-snoc count (l + 1) front last block h' (omega arith))

  -- `forward` on as many blocks as layers: the activation and the dropout stand behind every layer
  -- but the last one.
  pub forward-snoc :
      (front : List (SageConv × B)) (last : SageConv) (block : B) (x : H)
      → forward apply activation
          (map (λ (c, _). c) front ++ last ∷ [])
          (map (λ (_, b). b) front ++ block ∷ [])
          x
        ≡ (do h ← hidden_pass front x; apply last block h)
  unfolding forward
  forward-snoc front last block x =
      forward_from-snoc (length (map (λ (c, _). c) front ++ last ∷ [])) 0 front last block x
        (omega (arith, length-append (map (λ (c, _). c) front) (last ∷ []), length-map front))
