-- ===== src/Engine/Ends.antt =====
-- relay/engine.ts: what a method ends with. `Ends x Q E` says that a run that returns satisfies `Q`, and
-- that one that throws satisfies `E`.
use forum_relay.Common.{◌≡◌, refl, Bool, true, false, List, [], ◌∷◌}
use forum_relay.Common.{ℕ, String, Option, none, some, sym, subst}
use forum_relay.Common.Json.{Json, json_string, json_number}
use forum_relay.Retry.{Result, ok, err, Thrown}
use forum_relay.Relay.{RelayItem, IssueThreadLink}
use forum_relay.Relay.Items.{get_relay_item}
use forum_relay.Relay.Links.{get_link}
use forum_relay.Engine.Store.{required_relay_item, found_link, required_link}
use forum_relay.Engine.Payloads.{required_string, required_number}
use forum_relay.Engine.{Env, World, M, after, ◌>>=◌, rescue, rescued, each, when}

abbrev pub Ends : {A : Type 0} → World × Result A → (World → A → Type 0) → (World → Type 0) → Type 0
Ends (w, ok a) Q E = Q w a
Ends (w, err e) Q E = E w

-- What is said of a run that throws when nothing is.
abbrev pub Any : World → Type 0
Any w = Unit

-- An answer that is not known.
pub Ends-answer :
    {A : Type 0} (w : World) (r : Result A) (Q : World → A → Type 0) (E : World → Type 0)
    → ((a : A) → Q w a)
    → E w
    → Ends (w, r) Q E
Ends-answer w (ok a) Q E q e = q a
Ends-answer w (err f) Q E q e = e

-- An answer that is not known, with the fact that it was given.
pub Ends-given :
    {A : Type 0} (w : World) (r : Result A) (Q : World → A → Type 0) (E : World → Type 0)
    → ((a : A) → r ≡ ok a → Q w a)
    → E w
    → Ends (w, r) Q E
Ends-given w (ok a) Q E q e = q a refl
Ends-given w (err f) Q E q e = e

pub Ends-after :
    {A B : Type 0} (x : World × Result A) (f : A → M B) (P : World → A → Type 0)
    (Q : World → B → Type 0) (E : World → Type 0)
    → Ends x P E
    → ((w : World) (a : A) → P w a → Ends (f a w) Q E)
    → Ends (after x f) Q E
Ends-after (w, ok a) f P Q E h k = k w a h
Ends-after (w, err e) f P Q E h k = h

-- `m` and then `f`, by name.
pub Ends-bind :
    {A B : Type 0} (m : M A) (f : A → M B) (w : World) (P : World → A → Type 0)
    (Q : World → B → Type 0) (E : World → Type 0)
    → Ends (m w) P E
    → ((w' : World) (a : A) → P w' a → Ends (f a w') Q E)
    → Ends ((m >>= f) w) Q E
Ends-bind m f w = Ends-after (m w) f

pub Ends-rescued :
    {A : Type 0} (x : World × Result A) (f : Thrown → M A) (Q : World → A → Type 0)
    (E F : World → Type 0)
    → Ends x Q E
    → ((w : World) (e : Thrown) → E w → Ends (f e w) Q F)
    → Ends (rescued x f) Q F
Ends-rescued (w, ok a) f Q E F h k = h
Ends-rescued (w, err e) f Q E F h k = k w e h

pub Ends-weaker :
    {A : Type 0} (x : World × Result A) (P Q : World → A → Type 0) (E : World → Type 0)
    → ((w : World) (a : A) → P w a → Q w a)
    → Ends x P E
    → Ends x Q E
Ends-weaker (w, ok a) P Q E f h = f w a h
Ends-weaker (w, err e) P Q E f h = h

pub Ends-Any :
    {A : Type 0} (x : World × Result A) (Q : World → A → Type 0) (E : World → Type 0)
    → Ends x Q E
    → Ends x Q Any
Ends-Any (w, ok a) Q E h = h
Ends-Any (w, err e) Q E h = tt

-- What is known of a run, of one that returned.
pub Ends-returned :
    {A : Type 0} (x : World × Result A) (Q : World → A → Type 0) (E : World → Type 0) (w : World)
    (a : A)
    → Ends x Q E
    → x ≡ (w, ok a)
    → Q w a
Ends-returned x Q E w a h e = subst (λ y. Ends y Q E) e h

-- What a method keeps, whether it returns or throws.
abbrev pub Keeps : {A : Type 0} → (World → Type 0) → M A → Type 0
Keeps I m = (w : World) → I w → Ends (m w) (λ w' a. I w') I

module _ (I : World → Type 0) where
  pub Keeps-bind :
      {A B : Type 0} (m : M A) (f : A → M B)
      → Keeps I m
      → ((a : A) → Keeps I (f a))
      → Keeps I (m >>= f)
  Keeps-bind m f h k w i =
      Ends-after (m w) f (λ w' a. I w') (λ w' b. I w') I (h w i) (λ w' a. k a w')

  pub Keeps-each :
      {A : Type 0} (f : A → M (Unit {0}))
      → ((a : A) → Keeps I (f a))
      → (xs : List A) → Keeps I (each xs f)
  Keeps-each f h [] w i = i
  Keeps-each f h (x ∷ xs) w i = Keeps-bind (f x) (λ _. each xs f) (h x) (λ _. Keeps-each f h xs) w i

  pub Keeps-when : (b : Bool) (m : M (Unit {0})) → Keeps I m → Keeps I (when b m)
  Keeps-when true m h w i = h w i
  Keeps-when false m h w i = i

  pub Keeps-rescue :
      {A : Type 0} (m : M A) (f : Thrown → M A)
      → Keeps I m
      → ((e : Thrown) → Keeps I (f e))
      → Keeps I (rescue m f)
  Keeps-rescue m f h k w i = Ends-rescued (m w) f (λ w' a. I w') I I (h w i) (λ w' e. k e w')

pub required_string-json_string :
    (v : Json) (key s : String) → json_string v key ≡ some s → required_string v key ≡ ok s
unfolding required_string
required_string-json_string v key s e = rw (required_string, e) refl

pub required_number-json_number :
    (v : Json) (key : String) (n : ℕ) → json_number v key ≡ some n → required_number v key ≡ ok n
unfolding required_number
required_number-json_number v key n e = rw (required_number, e) refl

-- A call that answers `a` in the world as it is.
pub Ends-known :
    {A B : Type 0} (m : M A) (f : A → M B) (w : World) (a : A) (Q : World → B → Type 0)
    (E : World → Type 0)
    → m w ≡ (w, ok a)
    → Ends (f a w) Q E
    → Ends ((m >>= f) w) Q E
Ends-known m f w a Q E e h = subst (λ x. Ends (after x f) Q E) (sym e) h

pub required_relay_item-get_relay_item :
    (id : String) (item : RelayItem) (w : World)
    → get_relay_item w.items id ≡ some item
    → required_relay_item id w ≡ (w, ok item)
required_relay_item-get_relay_item id item w e = rw (required_relay_item, e) refl

pub required_link-get_link :
    (env : Env) (id : ℕ) (link : IssueThreadLink) (w : World)
    → get_link w.links id ≡ some link
    → required_link env id w ≡ (w, ok link)
required_link-get_link env id link w e = rw (required_link, e) refl

found_link-Ends :
    (env : Env) (id : ℕ) (w : World) (o : Option IssueThreadLink) (P : World → Type 0)
    → P w
    → Ends (found_link env id w o) (λ w' link. P w') P
found_link-Ends env id w none P h = h
found_link-Ends env id w (some link) P h = h

pub required_link-Ends :
    (env : Env) (id : ℕ) (w : World) (P : World → Type 0)
    → P w
    → Ends (required_link env id w) (λ w' link. P w') P
required_link-Ends env id w = found_link-Ends env id w (get_link w.links id)
