-- ===== src/Sandbox/Snapshots.antt =====
-- Snapshots of a sandbox's file system: `snapshot`, `restore`, `list_snapshots`, `delete_snapshot`,
-- `fs_snapshot` and `fs_restore` of sandbox.py. The content of a directory is of any type; a tag is a
-- number or a name without slashes. What is done to the shell and to the mounts is a log.
pub mod Again
use agentdocker_lite.Base.{
  ℕ, ◌+◌, ◌≡◌, refl, sym, ap, ◌∙◌, arith, Bool, true, false, not, ◌&&◌, Option, none, some, List,
  [], ◌∷◌, ◌++◌, ◌==◌, ltb, map, if◌then◌else◌, Result, ok, err, Bool-cases, inl, inr,
}
use agentdocker_lite.Text.{Text, codes}
use agentdocker_lite.Dict.{Dict, get, put, remove, keys, get-put_here}

pub data Tag : Type 0 where
  number : ℕ → Tag
  named : Text → Tag

pub data Event : Type 0 where
  shell_killed unmounted mounted shell_started : Event

abbrev pub Failure : Type 0
Failure = Text

-- The attributes, and the directories `upper` and `snapshots` if they exist.
pub record Box (A : Type 0) : Type 0 where
  pub userns : Bool
  pub has_upper : Bool
  pub has_rootfs : Bool
  pub has_lowerdir : Bool
  pub has_work : Bool
  pub upper : Option A
  pub snapshots : Option (Dict A)
  pub snapshot_counter : ℕ
  pub log : List Event

-- The order of texts by their code points.
unfoldable pub text_leb : Text → Text → Bool
text_leb [] t = true
text_leb (a ∷ s) [] = false
text_leb (a ∷ s) (b ∷ t) =
    let rest = text_leb s t in if ltb a b then true else if a == b then rest else false

unfoldable pub insert : Text → List Text → List Text
unfolding text_leb
insert s [] = s ∷ []
insert s (t ∷ ts) = let rest = insert s ts in if text_leb s t then s ∷ (t ∷ ts) else t ∷ rest

-- sorted(ts)
unfoldable pub sorted : List Text → List Text
unfolding insert
sorted [] = []
sorted (t ∷ ts) = insert t (sorted ts)

-- xs[-1]
abbrev pub last_of {ℓ} : {X : Type ℓ} → List X → Option X
last_of [] = none
last_of (x ∷ []) = some x
last_of (x ∷ (y ∷ xs)) = last_of (y ∷ xs)

-- str(tag), where `show` is that of a number
abbrev pub name_of : (ℕ → Text) → Tag → Text
name_of show (number n) = show n
name_of show (named s) = s

-- A name of digits is its number.
abbrev pub tag_of : (Text → Option ℕ) → Text → Tag
tag_of number_of s = elim (number_of s) [ none ↦ named s | some n ↦ number n ]

module _ {A : Type 0} (show : ℕ → Text) (number_of : Text → Option ℕ) where
  abbrev pub saved : Box A → Dict A
  saved box = elim box.snapshots [ none ↦ [] | some d ↦ d ]

  unfoldable pub list_snapshots : Box A → List Tag
  unfolding sorted keys
  list_snapshots box = map (tag_of number_of) (sorted (keys (saved box)))

  -- The upper directory's content is copied to a directory of this name, unless there is one.
  unfoldable pub copy_upper :
      Bool → Option A → Option A → Text → Box A → Result Failure (Unit {0}) × Box A
  unfolding put
  copy_upper true (some content) none name box =
      (ok tt, record box { snapshots = some (put name content (saved box)) })
  copy_upper true (some content) (some old) name box = (err (codes "FileExistsError"), box)
  copy_upper true none old name box = (err (codes "fs_snapshot() requires overlayfs"), box)
  copy_upper false upper old name box = (err (codes "fs_snapshot() requires overlayfs"), box)

  unfoldable pub fs_snapshot : Text → Box A → Result Failure (Unit {0}) × Box A
  unfolding get copy_upper
  fs_snapshot name box = copy_upper box.has_upper box.upper (get name (saved box)) name box

  -- The tag that a snapshot gets, where a number moves the counter on.
  abbrev pub take_tag : Option Tag → Box A → Tag × Box A
  take_tag none box =
      (number box.snapshot_counter, record box { snapshot_counter = box.snapshot_counter + 1 })
  take_tag (some tag) box = (tag, box)

  abbrev pub make_dir : Box A → Box A
  make_dir box = record box { snapshots = some (saved box) }

  abbrev pub then_tag : Tag → Result Failure (Unit {0}) × Box A → Result Failure Tag × Box A
  then_tag tag (ok t, box) = (ok tag, box)
  then_tag tag (err e, box) = (err e, box)

  unfoldable pub snapshot : Option Tag → Box A → Result Failure Tag × Box A
  unfolding fs_snapshot
  snapshot tag box =
      let (tag', box') = take_tag tag (make_dir box) in
      then_tag tag' (fs_snapshot (name_of show tag') box')

  abbrev pub events_of_restore : Box A → List Event
  events_of_restore box =
      shell_killed ∷ []
      ++ (if not box.userns && box.has_rootfs then unmounted ∷ [] else [])
      ++ (if not box.userns && (box.has_rootfs && (box.has_lowerdir && box.has_work))
          then mounted ∷ []
          else [])
      ++ shell_started ∷ []

  -- The upper directory made anew. In a user namespace its children are listed first, which raises
  -- when the directory is gone: the shell has been killed by then.
  unfoldable pub replace_upper : Bool → Option A → A → Box A → Result Failure (Unit {0}) × Box A
  replace_upper true none content box =
      (err (codes "FileNotFoundError"), record box { log = box.log ++ shell_killed ∷ [] })
  replace_upper true (some old) content box =
      (ok tt, record box { upper = some content; log = box.log ++ events_of_restore box })
  replace_upper false upper content box =
      (ok tt, record box { upper = some content; log = box.log ++ events_of_restore box })

  -- From the content of a snapshot that is there.
  unfoldable pub fs_restore : A → Box A → Result Failure (Unit {0}) × Box A
  unfolding replace_upper
  fs_restore content box =
      if not box.has_upper
      then (err (codes "restore() requires overlayfs"), box)
      else replace_upper box.userns box.upper content box

  -- Behind a number the counter goes on.
  abbrev pub reset_counter :
      Tag → Result Failure (Unit {0}) × Box A → Result Failure (Unit {0}) × Box A
  reset_counter (number n) (ok t, box) = (ok t, record box { snapshot_counter = n + 1 })
  reset_counter (named s) (ok t, box) = (ok t, box)
  reset_counter tag (err e, box) = (err e, box)

  unfoldable pub restore_tag : Tag → Box A → Result Failure (Unit {0}) × Box A
  unfolding get fs_restore
  restore_tag tag box = elim (get (name_of show tag) (saved box)) [
    | none ↦ (err (codes "Snapshot not found"), box)
    | some content ↦ reset_counter tag (fs_restore content box)
  ]

  unfoldable pub restore : Option Tag → Box A → Result Failure (Unit {0}) × Box A
  unfolding restore_tag list_snapshots
  restore (some tag) box = restore_tag tag box
  restore none box = elim (last_of (list_snapshots box)) [
    | none ↦ (err (codes "No snapshots available"), box)
    | some tag ↦ restore_tag tag box
  ]

  unfoldable pub delete_snapshot : Tag → Box A → Box A
  unfolding remove
  delete_snapshot tag box = elim box.snapshots [
    | none ↦ box
    | some d ↦ record box { snapshots = some (remove (name_of show tag) d) }
  ]
