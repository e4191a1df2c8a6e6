-- ===== src/Image/Layers/Verified.antt =====
-- What the generator yields, and what its end without an error means.
use agentdocker_lite.Base.{
  ap, ◌∙◌, ==_iff, ◌≡◌, refl, true, Option, none, some, List, [], ◌∷◌, ◌==◌, if◌then◌else◌, length,
  Result, ok, err, arith, All, map, Bool-cases, ◌⊎◌, inl, inr, ◌&&◌,
}
use agentdocker_lite.Text.{Text, text_eq, text_eq_iff, contains}
use agentdocker_lite.Image.Download.{Bytes}
use agentdocker_lite.Image.Layers.{
  Trouble, digest_mismatch, stopped, yielding, Layer, Yield, sha256_digest, fetch_layer,
  iter_layers, iter_image_layers,
}

-- The needed ones, in their order.
abbrev pub selected : List Text → List Text → List Text
selected needed [] = []
selected needed (d ∷ ds) =
    let rest = selected needed ds in if contains needed d then d ∷ rest else rest

contains-selected :
    (needed diff_ids : List Text) (d : Text)
    → contains (selected needed diff_ids) d ≡ (contains needed d && contains diff_ids d)
unfolding contains
contains-selected needed [] d = ground arith
contains-selected needed (e ∷ diff_ids) d = elim (Bool-cases (text_eq e d)) [
  | inl same ↦
      let here : e ≡ d = (text_eq_iff e d).0 same in
      ground (arith, here, contains-selected needed diff_ids d)
  | inr other ↦ ground (arith, other, contains-selected needed diff_ids d)
]

-- The pair stands in the two lists at one place.
abbrev pub Paired : Text → Text → List Text → List Layer → Type 0
Paired d digest (e ∷ diff_ids) (layer ∷ layers) =
    ((e ≡ d) × (layer.digest ≡ some digest)) ⊎ Paired d digest diff_ids layers
Paired d digest _ _ = ⊥

abbrev pub first : Text × Bytes → Text
first y = y.0

module _ (download : Text → Result Trouble Bytes) (sha256 : Bytes → Text) (needed : List Text) where
  -- A layer that was needed, with the content that the manifest's digest stands for.
  pub record IsVerified (diff_ids : List Text) (layers : List Layer) (y : Text × Bytes)
      : Type 0 where
    pub wanted : contains needed y.0 ≡ true
    pub digest : Text
    pub paired : Paired y.0 digest diff_ids layers
    pub got : download digest ≡ ok y.1
    pub hash : sha256_digest sha256 y.1 ≡ digest

  abbrev Verifies : List Text → List Layer → Yield → Type 0
  Verifies diff_ids layers y = All (IsVerified diff_ids layers) y.layers

  weaken :
      (e : Text) (diff_ids : List Text) (layer : Layer) (layers : List Layer)
      (ys : List (Text × Bytes))
      → All (IsVerified diff_ids layers) ys
      → All (IsVerified (e ∷ diff_ids) (layer ∷ layers)) ys
  weaken e diff_ids layer layers [] h = tt
  weaken e diff_ids layer layers (y ∷ ys) (v, h) = (
    record {
      wanted = v.wanted;
      digest = v.digest;
      paired = inr v.paired;
      got = v.got;
      hash = v.hash;
    },
    weaken e diff_ids layer layers ys h,
  )

  -- What becomes of a download.
  abbrev settled : Text → Text → Yield → Result Trouble Bytes → Yield
  settled d digest rest answer = elim answer [
    | err t ↦ stopped t
    | ok blob ↦
        if text_eq (sha256_digest sha256 blob) digest
        then yielding d blob rest
        else stopped (digest_mismatch digest (sha256_digest sha256 blob))
  ]

  fetch_layer-Verifies :
      (d : Text) (diff_ids : List Text) (layer : Layer) (layers : List Layer) (rest : Yield)
      (o : Option Text)
      → layer.digest ≡ o
      → contains needed d ≡ true
      → Verifies (d ∷ diff_ids) (layer ∷ layers) rest
      → Verifies (d ∷ diff_ids) (layer ∷ layers) (fetch_layer download sha256 needed d o rest)
  unfolding fetch_layer
  fetch_layer-Verifies d diff_ids layer layers rest none e w h = tt
  fetch_layer-Verifies d diff_ids layer layers rest (some digest) e w h =
      settle (download digest) refl
    where
      settle :
          (answer : Result Trouble Bytes)
          → download digest ≡ answer
          → Verifies (d ∷ diff_ids) (layer ∷ layers) (settled d digest rest answer)
      settle (err t) got = tt
      settle (ok blob) got = elim (Bool-cases (text_eq (sha256_digest sha256 blob) digest)) [
        | inl same ↦ rw same (
          record {
            wanted = w;
            digest = digest;
            paired = inl (refl, e);
            got = got;
            hash = (text_eq_iff _ _).0 same;
          },
          h,
        )
        | inr other ↦ rw other tt
      ]

  iter_layers-Verifies :
      (diff_ids : List Text) (layers : List Layer)
      → Verifies diff_ids layers (iter_layers download sha256 needed diff_ids layers)
  unfolding iter_layers
  iter_layers-Verifies [] layers = tt
  iter_layers-Verifies (d ∷ diff_ids) [] = tt
  iter_layers-Verifies (d ∷ diff_ids) (layer ∷ layers) =
      let ih = weaken d diff_ids layer layers _ (iter_layers-Verifies diff_ids layers) in
      let here =
        fetch_layer-Verifies d diff_ids layer layers
          (iter_layers download sha256 needed diff_ids layers) layer.digest refl in
      elim (Bool-cases (contains needed d)) [
        | inl w ↦ rw w (here w ih)
        | inr unwanted ↦ rw unwanted ih
      ]

  -- However the generator ends, each layer that it has yielded is one that was asked for, stands in
  -- the configuration and in the manifest at one place, and has a content whose SHA-256 is the digest
  -- of the manifest.
  pub iter_image_layers-Verifies :
      (diff_ids : List Text) (layers : List Layer)
      → Verifies diff_ids layers (iter_image_layers download sha256 needed diff_ids layers)
  unfolding iter_image_layers
  iter_image_layers-Verifies diff_ids layers =
      let ok_run = iter_layers-Verifies diff_ids layers in
      elim (Bool-cases (length diff_ids == length layers)) [
        | inl same ↦ rw same ok_run
        | inr other ↦ rw other tt
      ]

  -- A round that raises nothing yields its layer and goes on.
  fetch_layer_finished :
      (d : Text) (o : Option Text) (rest : Yield)
      → (fetch_layer download sha256 needed d o rest).trouble ≡ none
      → (rest.trouble ≡ none)
        × (map first (fetch_layer download sha256 needed d o rest).layers
            ≡ d ∷ map first rest.layers)
  unfolding fetch_layer
  fetch_layer_finished d none rest fine = ground arith
  fetch_layer_finished d (some digest) rest fine = settle (download digest) fine
    where
      settle :
          (answer : Result Trouble Bytes)
          → (settled d digest rest answer).trouble ≡ none
          → (rest.trouble ≡ none)
            × (map first (settled d digest rest answer).layers ≡ d ∷ map first rest.layers)
      settle (err t) = λ fine. ground arith
      settle (ok blob) = elim (Bool-cases (text_eq (sha256_digest sha256 blob) digest)) [
        | inl same ↦ rw same (λ fine. (fine, refl))
        | inr other ↦ rw other (λ fine. ground arith)
      ]

  iter_layers_finished :
      (diff_ids : List Text) (layers : List Layer)
      → length diff_ids ≡ length layers
      → (iter_layers download sha256 needed diff_ids layers).trouble ≡ none
      → map first (iter_layers download sha256 needed diff_ids layers).layers
        ≡ selected needed diff_ids
  unfolding iter_layers
  iter_layers_finished [] layers same = λ fine. refl
  iter_layers_finished (d ∷ diff_ids) [] same = ground arith
  iter_layers_finished (d ∷ diff_ids) (layer ∷ layers) same =
      let ih = iter_layers_finished diff_ids layers (omega (arith, same)) in
      let here =
        fetch_layer_finished d layer.digest (iter_layers download sha256 needed diff_ids layers) in
      elim (Bool-cases (contains needed d)) [
        | inl w ↦ rw w (λ fine. (here fine).1 ∙ ap (λ ys. d ∷ ys) (ih (here fine).0))
        | inr unwanted ↦ rw unwanted ih
      ]

  -- A generator that ends without an error has yielded the configuration's layers that were asked for,
  -- each as often as the configuration has it and in its order, and the manifest has as many layers as
  -- the configuration. A digest is among the yielded ones exactly if it was asked for and the
  -- configuration has it: one that was asked for and is not there is passed over without an error.
  pub iter_image_layers_finished :
      (diff_ids : List Text) (layers : List Layer) (d : Text)
      → (iter_image_layers download sha256 needed diff_ids layers).trouble ≡ none
      → (length diff_ids ≡ length layers)
        × (map first (iter_image_layers download sha256 needed diff_ids layers).layers
            ≡ selected needed diff_ids)
        × (contains (map first (iter_image_layers download sha256 needed diff_ids layers).layers) d
            ≡ (contains needed d && contains diff_ids d))
  unfolding iter_image_layers
  iter_image_layers_finished diff_ids layers d =
      let run = iter_layers_finished diff_ids layers in
      elim (Bool-cases (length diff_ids == length layers)) [
        | inl same ↦
            let lengths = (==_iff _ _).0 same in
            rw same (λ fine. (
              lengths,
              run lengths fine,
              ap (λ ds. contains ds d) (run lengths fine) ∙ contains-selected needed diff_ids d,
            ))
        | inr other ↦ rw other (λ fine. ground arith)
      ]
