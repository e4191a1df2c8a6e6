-- ===== src/Config/DockerRun/Render.antt =====
-- Command lines made of options, as `from_docker_run` of config.py reads them back.
use agentdocker_lite.Base.{
  ◌≡◌, refl, ap, sym, ◌∙◌, false, Option, none, List, [], ◌∷◌, ◌++◌, append_assoc, append-nil,
  Result, ok, err, ◌>>=◌, ℕ, ◌==◌, Result-cases, arith,
}
use agentdocker_lite.Text.{Text, codes, text_eq, contains, strip_prefix, split_once}
use agentdocker_lite.Dict.{get}
use agentdocker_lite.Config.{Python, Failure, SandboxConfig}
use agentdocker_lite.Config.DockerRun.{
  positional, ready, kind, split_word, kind_by, switch_kind, other_kind, take, act, step, advance,
  loop, finish, from_words,
}
use agentdocker_lite.Config.DockerRun.Keys.{
  Key, Options, start, key_of, apply, set_image, set_read_only, set_privileged, set_tty,
}
use agentdocker_lite.Config.DockerRun.LongNames.{
  long_name, kind-long_name, split_word-joined, split_word-spaced,
}

-- `--key=value` with a value that is not empty, `--key value`, and the options without a value.
pub data Flag : Type 0 where
  joined : Key → ℕ → Text → Flag
  spaced : Key → Text → Flag
  rootfs_read_only all_privileges with_tty detached : Flag

abbrev pub words_of : Flag → List Text
words_of (joined key c v) = (long_name key ++ (codes "=" ++ (c ∷ v))) ∷ []
words_of (spaced key v) = long_name key ∷ (v ∷ [])
words_of rootfs_read_only = codes "--read-only" ∷ []
words_of all_privileges = codes "--privileged" ∷ []
words_of with_tty = codes "--tty" ∷ []
words_of detached = codes "--detach" ∷ []

unfoldable pub render : List Flag → List Text
render [] = []
render (flag ∷ flags) = words_of flag ++ render flags

module _ (py : Python) (read_lines : Text → Option (List Text)) where
  -- What the option is documented to do.
  abbrev pub meaning : Flag → Options → Result Failure Options
  meaning (joined key c v) o = apply py read_lines key (c ∷ v) o
  meaning (spaced key v) o = apply py read_lines key v o
  meaning rootfs_read_only o = ok (set_read_only o)
  meaning all_privileges o = ok (set_privileged o)
  meaning with_tty o = ok (set_tty o)
  meaning detached o = ok o

  unfoldable pub meanings : List Flag → Options → Result Failure Options
  meanings [] o = ok o
  meanings (flag ∷ flags) o = (meaning flag o >>= meanings flags)

split_word-positional :
    (c : ℕ) (image : Text) → b'-' == c ≡ false → split_word (c ∷ image) ≡ (c ∷ image, [])
unfolding split_word strip_prefix
split_word-positional c image h = simp h

key_of-positional : (c : ℕ) (image : Text) → b'-' == c ≡ false → key_of (c ∷ image) ≡ none
unfolding key_of get text_eq
key_of-positional c image h = simp h

switch_kind-positional :
    (c : ℕ) (image : Text) → b'-' == c ≡ false → switch_kind (c ∷ image) ≡ positional
unfolding switch_kind text_eq contains other_kind strip_prefix
switch_kind-positional c image h = simp h

kind-positional : (c : ℕ) (image : Text) → b'-' == c ≡ false → kind (c ∷ image) ≡ positional
unfolding kind
kind-positional c image h =
    ap (λ key. kind_by key (c ∷ image)) (key_of-positional c image h)
    ∙ switch_kind-positional c image h

bind-all :
    (r : Result Failure Options) (f g h : Options → Result Failure Options)
    → ((o : Options) → f o ≡ (g o >>= h))
    → (r >>= f) ≡ (r >>= g >>= h)
bind-all (ok o) f g h same = same o
bind-all (err e) f g h same = refl

bind-ok :
    (r : Result Failure Options) (f : Options → Result Failure Options)
    → ((o : Options) → f o ≡ ok o)
    → (r >>= f) ≡ r
bind-ok (ok o) f h = h o
bind-ok (err e) f h = refl

bind-same :
    (r : Result Failure Options) (f g : Options → Result Failure Options)
    (last : Options → Result Failure SandboxConfig)
    → ((o : Options) → f o ≡ g o)
    → (r >>= f >>= last) ≡ (r >>= λ o. g o >>= last)
bind-same (ok o) f g last h = ap (λ r. r >>= last) (h o)
bind-same (err e) f g last h = refl

module _ (py : Python) (read_lines : Text → Option (List Text)) where
  at_kind :
      (w : Text) (key : Key) (v : Text) (o : Options)
      → split_word w ≡ (long_name key, v)
      → step py read_lines w o ≡ take py read_lines key v o
  unfolding step act
  at_kind w key v o h =
      ap (λ p. act py read_lines (kind p.0) p.0 p.1 o) h
      ∙ ap (λ k. act py read_lines k (long_name key) v o) (kind-long_name key)

  loop-joined :
      (key : Key) (c : ℕ) (v : Text) (rest : List Text) (o : Options)
      → loop py read_lines ((long_name key ++ (codes "=" ++ (c ∷ v))) ∷ rest) ready o
        ≡ (apply py read_lines key (c ∷ v) o >>= loop py read_lines rest ready)
  unfolding loop advance take
  loop-joined key c v rest o =
      ap (λ r. r >>= λ (o', pending). loop py read_lines rest pending o')
        (at_kind (long_name key ++ (codes "=" ++ (c ∷ v))) key (c ∷ v) o
          (split_word-joined key (c ∷ v)))
      ∙ ground (arith, Result-cases (apply py read_lines key (c ∷ v) o))

  loop-spaced :
      (key : Key) (v : Text) (rest : List Text) (o : Options)
      → loop py read_lines (long_name key ∷ (v ∷ rest)) ready o
        ≡ (apply py read_lines key v o >>= loop py read_lines rest ready)
  unfolding loop advance take
  loop-spaced key v rest o =
      ap (λ r. r >>= λ (o', pending). loop py read_lines (v ∷ rest) pending o')
        (at_kind (long_name key) key [] o (split_word-spaced key))
      ∙ ground (arith, Result-cases (apply py read_lines key v o))

  -- The switches.
  loop-switch :
      (flag : Flag) (rest : List Text) (o : Options)
      → loop py read_lines (words_of flag ++ rest) ready o
        ≡ (meaning py read_lines flag o >>= loop py read_lines rest ready)
  unfolding loop advance step act split_word split_once strip_prefix kind key_of get switch_kind
      text_eq contains
  loop-switch (joined key c v) rest o = loop-joined key c v rest o
  loop-switch (spaced key v) rest o = loop-spaced key v rest o
  loop-switch rootfs_read_only rest o = refl
  loop-switch all_privileges rest o = refl
  loop-switch with_tty rest o = refl
  loop-switch detached rest o = refl

  pub loop-render :
      (flags : List Flag) (rest : List Text) (o : Options)
      → loop py read_lines (render flags ++ rest) ready o
        ≡ (meanings py read_lines flags o >>= loop py read_lines rest ready)
  unfolding render meanings
  loop-render [] rest o = refl
  loop-render (flag ∷ flags) rest o =
      ap (λ ws. loop py read_lines ws ready o) (append_assoc (words_of flag) (render flags) rest)
      ∙ loop-switch flag (render flags ++ rest) o
      ∙ bind-all (meaning py read_lines flag o) _ _ _ (λ o'. loop-render flags rest o')

  -- An image name reads as the image, when it does not start with a dash.
  loop_image :
      (c : ℕ) (image : Text) (rest : List Text) (o : Options)
      → b'-' == c ≡ false
      → loop py read_lines ((c ∷ image) ∷ rest) ready o
        ≡ loop py read_lines rest ready (set_image (c ∷ image) o)
  unfolding loop advance step act
  loop_image c image rest o h =
      ap
        (λ p. act py read_lines (kind p.0) p.0 p.1 o >>= λ (o', pending).
          loop py read_lines rest pending o')
        (split_word-positional c image h)
      ∙ ap
          (λ k. act py read_lines k (c ∷ image) [] o >>= λ (o', pending).
            loop py read_lines rest pending o')
          (kind-positional c image h)

  loop-all :
      (flags : List Flag) (o : Options)
      → loop py read_lines (render flags) ready o ≡ meanings py read_lines flags o
  unfolding loop
  loop-all flags o =
      ap (λ ws. loop py read_lines ws ready o) (sym (append-nil (render flags)))
      ∙ loop-render flags [] o
      ∙ bind-ok (meanings py read_lines flags o) _ (λ o'. refl)

  module _ (device : Text → Option Text) (base_dir cache_dir : Text) where
    -- A command line that consists of options, each in its long form, then an image whose name does not
    -- start with a dash, then options again, has the effect of the first options, the image and the
    -- last options, in this order: the options behind the image count as those in front of it.
    pub from_words-render :
        (front : List Flag) (c : ℕ) (image : Text) (behind : List Flag)
        → b'-' == c ≡ false
        → from_words py read_lines device base_dir cache_dir
            (render front ++ ((c ∷ image) ∷ render behind))
          ≡ (meanings py read_lines front start >>= λ o.
              meanings py read_lines behind (set_image (c ∷ image) o)
              >>= finish py read_lines device base_dir cache_dir)
    unfolding from_words loop
    from_words-render front c image behind h =
        ap (λ r. r >>= finish py read_lines device base_dir cache_dir)
          (loop-render front ((c ∷ image) ∷ render behind) start)
        ∙ bind-same (meanings py read_lines front start) _ _
            (finish py read_lines device base_dir cache_dir)
            (λ o.
              loop_image c image (render behind) o h ∙ loop-all behind (set_image (c ∷ image) o))
