-- ===== src/Sandbox/Snapshots/Again.antt =====
-- A snapshot that is restored, and a snapshot taken behind a restore.
use agentdocker_lite.Base.{
  ℕ, ◌+◌, ◌≡◌, refl, ap, ap₂, ◌∙◌, Bool, true, not, Option, none, some, ◌++◌, if◌then◌else◌, Result,
  ok, err, ◌⊎◌, inl, inr, ◌≢◌, false, [], ◌∷◌,
}
use agentdocker_lite.Text.{Text, codes}
use agentdocker_lite.Dict.{get}
use agentdocker_lite.Sandbox.Snapshots.{
  Tag, number, named, Failure, Box, name_of, saved, copy_upper, fs_snapshot, make_dir, then_tag,
  snapshot, replace_upper, fs_restore, reset_counter, shell_killed, restore_tag, restore,
  events_of_restore,
}

module _ {A : Type 0} (show : ℕ → Text) (number_of : Text → Option ℕ) where
  -- The file system behind a later change.
  abbrev pub changed : Option A → Box A → Box A
  changed upper box = record box { upper = upper }

  -- The upper directory can be replaced: it is there, or nobody lists it.
  abbrev pub CanReplace : Bool → Option A → Type 0
  CanReplace userns upper = (userns ≡ false) ⊎ (upper ≢ none)

  replace_upper-ok :
      (userns : Bool) (upper : Option A) (content : A) (box : Box A)
      → CanReplace userns upper
      → replace_upper show number_of userns upper content box ≡ (
        ok tt,
        record box { upper = some content; log = box.log ++ events_of_restore show number_of box },
      )
  unfolding replace_upper
  replace_upper-ok true none content box (inl e) = cc
  replace_upper-ok true none content box (inr h) = absurd (h refl)
  replace_upper-ok true (some old) content box h = refl
  replace_upper-ok false upper content box h = refl

  restore_tag-ok :
      (tag : Tag) (box : Box A) (content : A)
      → box.has_upper ≡ true
      → CanReplace box.userns box.upper
      → get (name_of show tag) (saved show number_of box) ≡ some content
      → restore_tag show number_of tag box
        ≡ reset_counter show number_of tag (
          ok tt,
          record box {
            upper = some content;
            log = box.log ++ events_of_restore show number_of box;
          },
        )
  unfolding restore_tag fs_restore
  restore_tag-ok tag box content has can there =
      ap
        (λ r. elim r as (λ x. Result Failure (Unit {0}) × Box A) [
          | none ↦ (err (codes "Snapshot not found"), box)
          | some c ↦ reset_counter show number_of tag (fs_restore show number_of c box)
        ])
        there
      ∙ ap
          (λ h. reset_counter show number_of tag (
            if not h
            then (err (codes "restore() requires overlayfs"), box)
            else replace_upper show number_of box.userns box.upper content box))
          has
      ∙ ap (reset_counter show number_of tag)
          (replace_upper-ok box.userns box.upper content box can)

  -- What a restore that succeeds gives, whatever it does to the counter.
  abbrev pub HasRestored : A → Result Failure (Unit {0}) × Box A → Type 0
  HasRestored content (result, box) = (result ≡ ok tt) × (box.upper ≡ some content)

  snapshot_taken :
      (box : Box A) (content old : A)
      → box.has_upper ≡ true
      → box.upper ≡ some content
      → get (show box.snapshot_counter) (saved show number_of box) ≡ some old
      → (snapshot show number_of none box).0 ≡ err (codes "FileExistsError")
  unfolding snapshot fs_snapshot copy_upper
  snapshot_taken box content old has upper there =
      let next =
        make_dir show number_of (record box { snapshot_counter = box.snapshot_counter + 1 }) in
      let copy : Bool → Option A → Option A → Result Failure Tag = λ h u o.
        (then_tag show number_of (number box.snapshot_counter)
          (copy_upper show number_of h u o (show box.snapshot_counter) next)).0 in
      ap (λ h. copy h box.upper (get (show box.snapshot_counter) (saved show number_of box))) has
      ∙ ap₂ (copy true) upper there

  -- A snapshot whose upper directory is gone cannot be restored in a user namespace: the restore
  -- raises, and leaves the shell killed.
  restore_lost :
      (tag : Tag) (box : Box A) (content : A)
      → box.has_upper ≡ true
      → box.userns ≡ true
      → box.upper ≡ none
      → get (name_of show tag) (saved show number_of box) ≡ some content
      → restore show number_of (some tag) box
        ≡ (err (codes "FileNotFoundError"), record box { log = box.log ++ shell_killed ∷ [] })
  unfolding restore restore_tag fs_restore replace_upper
  restore_lost tag box content has userns lost there =
      let lose : Bool → Option A → Result Failure (Unit {0}) × Box A =
        λ u o. reset_counter show number_of tag (replace_upper show number_of u o content box) in
      ap
        (λ r. elim r as (λ x. Result Failure (Unit {0}) × Box A) [
          | none ↦ (err (codes "Snapshot not found"), box)
          | some c ↦ reset_counter show number_of tag (fs_restore show number_of c box)
        ])
        there
      ∙ ap
          (λ h. reset_counter show number_of tag (
            if not h
            then (err (codes "restore() requires overlayfs"), box)
            else replace_upper show number_of box.userns box.upper content box))
          has
      ∙ ap₂ lose userns lost
      ∙ uncounted tag
    where
      uncounted :
          (tag : Tag)
          → reset_counter show number_of tag
              (err (codes "FileNotFoundError"), record box { log = box.log ++ shell_killed ∷ [] })
            ≡ (err (codes "FileNotFoundError"), record box { log = box.log ++ shell_killed ∷ [] })
      uncounted (number n) = refl
      uncounted (named s) = refl

  -- Where the upper directory is there, or there is no user namespace: behind a restore of a numbered
  -- snapshot that is not the last one, so that the next number is taken, the next snapshot without a
  -- tag raises: its number is that of the directory that is there.
  pub snapshot_behind_restore :
      (n : ℕ) (box : Box A) (content old : A)
      → box.has_upper ≡ true
      → ((box.userns ≡ false) ⊎ (box.upper ≢ none))
      → get (show n) (saved show number_of box) ≡ some content
      → get (show (n + 1)) (saved show number_of box) ≡ some old
      → ((restore show number_of (some (number n)) box).0 ≡ ok tt)
        × ((snapshot show number_of none (restore show number_of (some (number n)) box).1).0
            ≡ err (codes "FileExistsError"))
  unfolding restore
  snapshot_behind_restore n box content old has can here taken =
      rw (restore_tag-ok (number n) box content has can here) (
        refl,
        snapshot_taken
            (record box {
              upper = some content;
              log = box.log ++ events_of_restore show number_of box;
              snapshot_counter = n + 1;
            })
            content old has refl taken,
      )
