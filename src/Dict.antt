-- ===== src/Dict.antt =====
-- Python's `dict` with text keys: an association list in insertion order. `put` keeps the place of a
-- key that is there, and appends one that is not.
use agentdocker_lite.Base.{
  ◌≡◌, refl, ap, ◌∙◌, true, false, Option, none, some, List, [], ◌∷◌, if◌then◌else◌, arith,
}
use agentdocker_lite.Text.{Text, text_eq, text_eq_refl, text_eq_iff, contains}

abbrev pub Dict {ℓ} : Type ℓ → Type ℓ
Dict V = List (Text × V)

module _ {ℓ} {V : Type ℓ} where
  -- d.get(k)
  unfoldable pub get : Text → Dict V → Option V
  get k [] = none
  get k ((j, v) ∷ d) = if text_eq j k then some v else get k d

  -- d[k] = v
  unfoldable pub put : Text → V → Dict V → Dict V
  put k v [] = (k, v) ∷ []
  put k v ((j, w) ∷ d) = if text_eq j k then (j, v) ∷ d else (j, w) ∷ put k v d

  -- d.pop(k, None)
  unfoldable pub remove : Text → Dict V → Dict V
  remove k [] = []
  remove k ((j, w) ∷ d) = let rest = remove k d in if text_eq j k then rest else (j, w) ∷ rest

  -- list(d)
  unfoldable pub keys : Dict V → List Text
  keys [] = []
  keys ((j, v) ∷ d) = j ∷ keys d

  -- {**d, **e}, d.update(e)
  unfoldable pub update : Dict V → Dict V → Dict V
  unfolding put
  update d [] = d
  update d ((j, v) ∷ e) = update (put j v d) e

  pub get-put :
      (k j : Text) (v : V) (d : Dict V)
      → get j (put k v d) ≡ (if text_eq k j then some v else get j d)
  unfolding get put
  get-put k j v [] = refl
  get-put k j v ((i, w) ∷ d) =
      ground (arith, get-put k j v d, text_eq_iff i k, text_eq_iff i j, text_eq_iff k j)

  pub get-put_here : (k : Text) (v : V) (d : Dict V) → get k (put k v d) ≡ some v
  get-put_here k v d = get-put k k v d ∙ ap (λ b. if b then some v else get k d) (text_eq_refl k)

  pub get-put_there :
      (j k : Text) (v : V) (d : Dict V) → text_eq k j ≡ false → get j (put k v d) ≡ get j d
  get-put_there j k v d h = get-put k j v d ∙ ap (λ b. if b then some v else get j d) h

  pub get-remove :
      (k j : Text) (d : Dict V) → get j (remove k d) ≡ (if text_eq k j then none else get j d)
  unfolding get remove
  get-remove k j [] = ground arith
  get-remove k j ((i, w) ∷ d) =
      ground (arith, get-remove k j d, text_eq_iff i k, text_eq_iff i j, text_eq_iff k j)

  pub contains-keys-put :
      (k j : Text) (v : V) (d : Dict V)
      → contains (keys (put k v d)) j ≡ (if text_eq k j then true else contains (keys d) j)
  unfolding put keys contains
  contains-keys-put k j v [] = refl
  contains-keys-put k j v ((i, w) ∷ d) =
      ground (arith, contains-keys-put k j v d, text_eq_iff i k, text_eq_iff i j, text_eq_iff k j)

  pub contains-keys-remove :
      (k j : Text) (d : Dict V)
      → contains (keys (remove k d)) j ≡ (if text_eq k j then false else contains (keys d) j)
  unfolding remove keys contains
  contains-keys-remove k j [] = ground arith
  contains-keys-remove k j ((i, w) ∷ d) =
      ground (arith, contains-keys-remove k j d, text_eq_iff i k, text_eq_iff i j, text_eq_iff k j)

  -- A key with a value is among the keys.
  pub get-contains : (k : Text) (v : V) (d : Dict V) → get k d ≡ some v → contains (keys d) k ≡ true
  unfolding get keys contains
  get-contains k v [] h = ground arith
  get-contains k v ((i, w) ∷ d) h = ground (arith, get-contains k v d)

  pub get-absent : (k : Text) (d : Dict V) → get k d ≡ none → contains (keys d) k ≡ false
  unfolding get keys contains
  get-absent k [] h = refl
  get-absent k ((i, w) ∷ d) h = ground (arith, get-absent k d)

  pub without_keys : (d : Dict V) → ((k : Text) → contains (keys d) k ≡ false) → d ≡ []
  unfolding keys contains
  without_keys [] h = refl
  without_keys ((i, w) ∷ d) h = let here = h i in ground (arith, text_eq_refl i)
