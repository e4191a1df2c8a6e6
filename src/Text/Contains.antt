-- ===== src/Text/Contains.antt =====
-- Membership in a list of texts.
use agentdocker_lite.Base.{◌≡◌, refl, true, false, ◌||◌, List, [], ◌∷◌, ◌++◌, arith}
use agentdocker_lite.Text.Defs.{Text, text_eq, text_eq_refl, text_eq_iff, contains}

pub contains-append :
    (xs ys : List Text) (x : Text) → contains (xs ++ ys) x ≡ (contains xs x || contains ys x)
unfolding contains
contains-append [] ys x = refl
contains-append (y ∷ xs) ys x = ground (arith, contains-append xs ys x)

-- No text stands twice.
abbrev pub NoRepeat : List Text → Type 0
NoRepeat [] = Unit
NoRepeat (x ∷ xs) = (contains xs x ≡ false) × NoRepeat xs

pub NoRepeat-concat :
    (xs : List Text) (x : Text) → NoRepeat xs → contains xs x ≡ false → NoRepeat (xs ++ x ∷ [])
unfolding contains
NoRepeat-concat [] x _ _ = (refl, tt)
NoRepeat-concat (y ∷ xs) x (fresh, h) e = (
  ground (arith, contains-append xs (x ∷ []) y, text_eq_iff x y, text_eq_iff y x),
  NoRepeat-concat xs x h (ground (arith, text_eq_iff y x)),
)

pub contains-head : (x : Text) (xs : List Text) → contains (x ∷ xs) x ≡ true
unfolding contains
contains-head x xs = ground (arith, text_eq_refl x)

pub contains-tail :
    (x : Text) (xs : List Text) (n : Text) → contains xs n ≡ true → contains (x ∷ xs) n ≡ true
unfolding contains
contains-tail x xs n h = ground arith

-- A name outside differs from every name inside.
pub contains-differs :
    (x : Text) (xs : List Text) (n : Text)
    → contains xs x ≡ false
    → contains xs n ≡ true
    → text_eq x n ≡ false
contains-differs x xs n outside inside = ground (arith, text_eq_iff x n)
