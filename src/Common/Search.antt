-- ===== src/Common/Search.antt =====
-- The first row that passes a test, after the table is updated or extended.
use mathlib.Core.Path.{◌≡◌, refl}
use mathlib.Core.Bool.{Bool, true}
use mathlib.Core.Logic.{inl, inr}
use mathlib.Core.List.{List, [], ◌∷◌, ◌++◌}
use mathlib.Core.Option.{none, some}
use native.Mathlib.Omega.{arith}
use forum_relay.Common.Tests.{if◌then◌else◌, Bool-cases}
use forum_relay.Common.Lists.{find, update_where}

module _ {A : Type 0} where
  -- The first row that passes, when an update keeps the rows' answers, is the updated first row.
  pub find-update_where :
      (p q : A → Bool) (f : A → A)
      → ((x : A) → p (f x) ≡ p x)
      → (xs : List A) (x : A) → find p xs ≡ some x
      → find p (update_where q f xs) ≡ some (if q x then f x else x)
  find-update_where p q f same [] x h = cc
  find-update_where p q f same (y ∷ ys) x h = elim (Bool-cases (p y)) [
    | inl e ↦ ground (arith, same y)
    | inr e ↦ ground (arith, same y, find-update_where p q f same ys x)
  ]

  pub find-append :
      (p : A → Bool) (xs : List A) (y : A)
      → find p xs ≡ none
      → p y ≡ true
      → find p (xs ++ y ∷ []) ≡ some y
  find-append p [] y h e = rw e refl
  find-append p (x ∷ xs) y h e = ground (arith, find-append p xs y)
