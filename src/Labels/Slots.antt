-- ===== src/Labels/Slots.antt =====
-- `planDiscordForumTags`: how many tags are submitted, and what the resolutions point to.
use text.Mathlib.Text.{starts_with}
use forum_relay.Common.{
  ℕ, zero, suc, ◌≤◌, ◌<◌, ◌≡◌, refl, inl, inr, String, Bool, true, not, ◌&&◌, List, [], ◌∷◌, ◌++◌,
  none, some, length, any, keep, find, get_elem?, leb, arith, text_iff, length-append, ◌==◌,
  string_eq, if◌then◌else◌, All, All-append, All-map, Bool-cases, Option-cases,
}
use forum_relay.Labels.{DiscordForumTag, DiscordTagBindingInput, DiscordTagResolution}
use forum_relay.Labels.Tags.{
  Plan, find_index, stored_tag, named_tag, new_tag, claim_tag, push_tag, bind, bind_all, unplanned,
  plan_discord_forum_tags, is_claimed,
}

module _ {A : Type 0} where
  find_index_found :
      (p : A → Bool) (xs : List A)
      → any p xs ≡ true
      → (i : ℕ) × (a : A) × (find_index p xs ≡ some i) × (get_elem? xs i ≡ some a) × (p a ≡ true)
  find_index_found p [] h = cc
  find_index_found p (x ∷ xs) h = elim (Bool-cases (p x)) [
    | inl e ↦ (0, x, rw e refl, refl, e)
    | inr e ↦
        let (i, a, f, g, q) = find_index_found p xs (ground arith) in
        (suc i, a, rw (e, f) refl, g, q)
  ]

  get_elem?-append :
      (xs ys : List A) (i : ℕ) (a : A) → get_elem? xs i ≡ some a → get_elem? (xs ++ ys) i ≡ some a
  get_elem?-append [] ys i a h = cc
  get_elem?-append (x ∷ xs) ys zero a h = h
  get_elem?-append (x ∷ xs) ys (suc i) a h = get_elem?-append xs ys i a h

  any-find :
      (p q : A → Bool) (xs : List A) (a : A) → q a ≡ true → find p xs ≡ some a → any q xs ≡ true
  any-find p q [] a h f = cc
  any-find p q (x ∷ xs) a h f = ground (arith, any-find p q xs a)

  any-last : (q : A → Bool) (xs : List A) (a : A) → q a ≡ true → any q (xs ++ a ∷ []) ≡ true
  any-last q [] a h = rw h refl
  any-last q (x ∷ xs) a h = ground (arith, any-last q xs a h)

  length-keep : (p : A → Bool) (xs : List A) → length (keep p xs) ≤ length xs
  length-keep p [] = omega arith
  length-keep p (x ∷ xs) = ground (arith, length-keep p xs)

-- The resolution names a place of the submitted list, and the id of the tag there unless that tag is
-- yet to be created.
pub record IsPlace (tags : List DiscordForumTag) (r : DiscordTagResolution) : Type 0 where
  pub index : ℕ
  pub tag : DiscordForumTag
  pub submitted : r.submitted_index ≡ some index
  pub there : get_elem? tags index ≡ some tag
  pub id : r.tag_id ≡ (if starts_with tag.id "new:" then none else some tag.id)

pub record IsSound (maximum : ℕ) (p : Plan) : Type 0 where
  pub fits : length p.tags ≤ maximum
  pub places : All (IsPlace p.tags) p.resolutions

IsPlace-append :
    (tags more : List DiscordForumTag) (r : DiscordTagResolution)
    → IsPlace tags r
    → IsPlace (tags ++ more) r
IsPlace-append tags more r v = record {
  index = v.index;
  tag = v.tag;
  submitted = v.submitted;
  there = get_elem?-append tags more v.index v.tag v.there;
  id = v.id;
}

module _ (lower : String → String) (show : ℕ → String) (maximum : ℕ) where
  claim_tag-IsSound :
      (binding : DiscordTagBindingInput) (tag : DiscordForumTag) (p : Plan)
      → any (λ candidate. candidate.id == tag.id) p.tags ≡ true
      → IsSound maximum p
      → IsSound maximum (claim_tag lower show binding tag p)
  unfolding claim_tag
  claim_tag-IsSound binding tag p h v =
      let (i, a, f, g, q) = find_index_found (λ candidate. candidate.id == tag.id) p.tags h in
      let same : a.id ≡ tag.id = (text_iff a.id tag.id).0 q in
      record {
        fits = v.fits;
        places =
            All-append (IsPlace p.tags) p.resolutions _ v.places
              (record { index = i; tag = a; submitted = f; there = g; id = rw same refl }, tt);
      }

  push_tag-IsSound :
      (tag : DiscordForumTag) (p : Plan)
      → length p.tags < maximum
      → IsSound maximum p
      → IsSound maximum (push_tag lower show tag p)
  push_tag-IsSound tag p h v = record {
    fits = omega (arith, length-append p.tags (tag ∷ []));
    places =
        All-map (IsPlace p.tags) (IsPlace (p.tags ++ tag ∷ [])) (IsPlace-append p.tags (tag ∷ []))
          p.resolutions v.places;
  }

  found_claim :
      (test : DiscordForumTag → Bool) (binding : DiscordTagBindingInput) (tag : DiscordForumTag)
      (p : Plan)
      → find test p.tags ≡ some tag
      → IsSound maximum p
      → IsSound maximum (claim_tag lower show binding tag p)
  found_claim test binding tag p f = claim_tag-IsSound binding tag p (
      any-find test (λ candidate. candidate.id == tag.id) p.tags tag
        ((text_iff tag.id tag.id).1 refl) f)

  stored_claim :
      (binding : DiscordTagBindingInput) (tag : DiscordForumTag) (p : Plan)
      → stored_tag p binding ≡ some tag
      → IsSound maximum p
      → IsSound maximum (claim_tag lower show binding tag p)
  stored_claim binding tag p f v = elim (Option-cases binding.stored_tag_id) [
    | inl e ↦ cc
    | inr (id, e) ↦
        found_claim (λ t. t.id == id && not (is_claimed p t)) binding tag p (ground arith) v
  ]

  bind-IsSound :
      (p : Plan) (binding : DiscordTagBindingInput)
      → IsSound maximum p
      → IsSound maximum (bind lower show maximum p binding)
  unfolding bind
  bind-IsSound p binding v = elim (Option-cases (stored_tag p binding)) [
    | inr (tag, e) ↦ rw (e, bind) (stored_claim binding tag p e v)
    | inl e ↦
        rw (e, bind)
          (elim (Option-cases (named_tag lower show p binding)) [
            | inr (tag, f) ↦ rw f (found_claim _ binding tag p f v)
            | inl f ↦ rw f (elim (Bool-cases (leb maximum (length p.tags))) [
              | inl full ↦ rw full v
              | inr room ↦ rw room (
                  claim_tag-IsSound binding (new_tag lower show binding)
                    (push_tag lower show (new_tag lower show binding) p)
                    (any-last (λ candidate. candidate.id == (new_tag lower show binding).id) p.tags
                      (new_tag lower show binding) ((text_iff _ _).1 refl))
                    (push_tag-IsSound (new_tag lower show binding) p (ground arith) v))
            ])
          ])
  ]

  bind_all-IsSound :
      (p : Plan) (bindings : List DiscordTagBindingInput)
      → IsSound maximum p
      → IsSound maximum (bind_all lower show maximum p bindings)
  unfolding bind_all
  bind_all-IsSound p [] v = v
  bind_all-IsSound p (b ∷ bs) v =
      bind_all-IsSound (bind lower show maximum p b) bs (bind-IsSound p b v)

  -- A forum that has at most the maximum number of tags is planned at most as many, and each binding
  -- that is resolved points to a place of the submitted list, with the id of the tag at that place
  -- unless that tag is new.
  pub plan_discord_forum_tags-IsSound :
      (current : List DiscordForumTag) (bindings : List DiscordTagBindingInput)
      (is_stale : String → Bool)
      → length current ≤ maximum
      → IsSound maximum (plan_discord_forum_tags lower show current bindings is_stale maximum)
  unfolding plan_discord_forum_tags
  plan_discord_forum_tags-IsSound current bindings is_stale h =
      bind_all-IsSound (unplanned lower show current is_stale) bindings (record {
        fits = omega (arith, length-keep (λ tag. not (is_stale tag.id)) current);
        places = tt;
      })
