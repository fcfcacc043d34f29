-- ===== src/Relay/Segments/Laws.antt =====
-- `replaceSegments`, `getSegments` and `markDeleted` together.
use forum_relay.Common.{
  ℕ, suc, ◌<◌, ◌≡◌, ◌≢◌, ◌⊎◌, inl, inr, refl, sym, ap, ◌∙◌, String, Bool, true, false, not, List,
  [], ◌∷◌, ◌++◌, map, any, keep, arith, text_iff, string_eq, ℕ_eq, le→leb, All, All-append, All-map,
  Bool-cases,
}
use forum_relay.Retry.{ok}
use forum_relay.Relay.{SegmentRow}
use forum_relay.Relay.Segments.{
  is_of_item, segment_clashes, insert_segment, delete_segments, hash_at, segment, insert_segments,
  replace_segments, by_position, get_segments,
}

keep-append :
    (p : SegmentRow → Bool) (xs ys : List SegmentRow) → keep p (xs ++ ys) ≡ keep p xs ++ keep p ys
keep-append p [] ys = refl
keep-append p (x ∷ xs) ys = ground (arith, keep-append p xs ys)

keep-not : (p : SegmentRow → Bool) (xs : List SegmentRow) → keep p (keep (λ x. not (p x)) xs) ≡ []
keep-not p [] = refl
keep-not p (x ∷ xs) = ground (arith, keep-not p xs)

keep-twice : (p : SegmentRow → Bool) (xs : List SegmentRow) → keep p (keep p xs) ≡ keep p xs
keep-twice p [] = refl
keep-twice p (x ∷ xs) = ground (arith, keep-twice p xs)

All→not-any :
    (p : SegmentRow → Bool) (xs : List SegmentRow) → All (λ x. p x ≡ false) xs → any p xs ≡ false
All→not-any p [] h = refl
All→not-any p (x ∷ xs) h = rw (h.0) (All→not-any p xs h.1)

append_nil : (xs : List SegmentRow) → xs ++ [] ≡ xs
append_nil [] = refl
append_nil (x ∷ xs) = ap (λ ys. x ∷ ys) (append_nil xs)

append_assoc : (xs ys zs : List SegmentRow) → (xs ++ ys) ++ zs ≡ xs ++ (ys ++ zs)
append_assoc [] ys zs = refl
append_assoc (x ∷ xs) ys zs = ap (λ ws. x ∷ ws) (append_assoc xs ys zs)

-- The messages are told apart.
abbrev pub Distinct : List String → Type 0
Distinct [] = Unit
Distinct (m ∷ ms) = All (λ n. m ≢ n) ms × Distinct ms

module _ (id : String) (hashes : List String) (now : ℕ) where
  -- The rows of the messages, from a position on.
  abbrev rows_of : ℕ → List String → List SegmentRow
  rows_of position [] = []
  rows_of position (m ∷ ms) = segment id position m hashes now ∷ rows_of (suc position) ms

  -- The messages that are to be shown, each with its hash.
  abbrev pub shown : ℕ → List String → List (String × String)
  shown position [] = []
  shown position (m ∷ ms) = (m, hash_at hashes position) ∷ shown (suc position) ms

  -- A row does not clash with what is inserted from the position on.
  abbrev HasRoom : ℕ → List String → SegmentRow → Type 0
  HasRoom position ms s =
      ((is_of_item id s ≡ false) ⊎ (s.position < position)) × All (λ m. s.discord_message_id ≢ m) ms

  no_clash :
      (position : ℕ) (m : String) (ms : List String) (s : SegmentRow)
      → HasRoom position (m ∷ ms) s
      → segment_clashes (segment id position m hashes now) s ≡ false
  no_clash position m ms s h =
      ground (arith, text_iff s.discord_message_id m, text_iff s.relay_item_id id)

  HasRoom-next :
      (position : ℕ) (m : String) (ms : List String) (s : SegmentRow)
      → HasRoom position (m ∷ ms) s
      → HasRoom (suc position) ms s
  HasRoom-next position m ms s h = ground arith

  insert_segments-succeeds :
      (position : ℕ) (ms : List String) (rows : List SegmentRow)
      → Distinct ms
      → All (HasRoom position ms) rows
      → insert_segments id hashes now position ms rows ≡ ok (rows ++ rows_of position ms)
  unfolding insert_segments insert_segment
  insert_segments-succeeds position [] rows d h = ap ok (sym (append_nil rows))
  insert_segments-succeeds position (m ∷ ms) rows d h =
      let new = segment id position m hashes now in
      rw
        (
          All→not-any (segment_clashes new) rows
              (All-map (HasRoom position (m ∷ ms)) _ (no_clash position m ms) rows h),
          insert_segment,
        )
        (insert_segments-succeeds (suc position) ms (rows ++ new ∷ []) d.1 (
            All-append (HasRoom (suc position) ms) rows (new ∷ [])
              (All-map (HasRoom position (m ∷ ms)) (HasRoom (suc position) ms)
                (HasRoom-next position m ms) rows h)
              ((inr (omega arith), d.0), tt))
          ∙ ap ok (append_assoc rows (new ∷ []) (rows_of (suc position) ms)))

  keep-rows_of :
      (position : ℕ) (ms : List String)
      → keep (is_of_item id) (rows_of position ms) ≡ rows_of position ms
  keep-rows_of position [] = refl
  keep-rows_of position (m ∷ ms) =
      rw ((text_iff id id).1 refl)
        (ap (λ rs. segment id position m hashes now ∷ rs) (keep-rows_of (suc position) ms))

  drop-rows_of :
      (position : ℕ) (ms : List String)
      → keep (λ s. not (is_of_item id s)) (rows_of position ms) ≡ []
  drop-rows_of position [] = refl
  drop-rows_of position (m ∷ ms) = rw ((text_iff id id).1 refl) (drop-rows_of (suc position) ms)

  by_position-rows_of :
      (position : ℕ) (ms : List String) → by_position (rows_of position ms) ≡ rows_of position ms
  unfolding by_position
  by_position-rows_of position [] = refl
  by_position-rows_of position (m ∷ []) = refl
  by_position-rows_of position (m ∷ n ∷ ms) =
      rw (by_position-rows_of (suc position) (n ∷ ms))
        (rw (le→leb position (suc position) (omega arith)) refl)

  map-rows_of :
      (position : ℕ) (ms : List String)
      → map (λ s. (s.discord_message_id, s.render_hash)) (rows_of position ms) ≡ shown position ms
  map-rows_of position [] = refl
  map-rows_of position (m ∷ ms) =
      ap (λ rs. (m, hash_at hashes position) ∷ rs) (map-rows_of (suc position) ms)

  -- No message of another item is among the new ones.
  abbrev pub IsFree : List String → SegmentRow → Type 0
  IsFree ms s = (is_of_item id s ≡ true) ⊎ All (λ m. s.discord_message_id ≢ m) ms

  free_of :
      (ms : List String) (s : SegmentRow)
      → is_of_item id s ≡ false
      → IsFree ms s
      → All (λ m. s.discord_message_id ≢ m) ms
  free_of ms s other (inl own) = cc
  free_of ms s other (inr free) = free

  others_have_room :
      (ms : List String) (rows : List SegmentRow)
      → All (IsFree ms) rows
      → All (HasRoom 0 ms) (delete_segments id rows)
  others_have_room ms [] h = tt
  others_have_room ms (s ∷ rows) h = elim (Bool-cases (is_of_item id s)) [
    | inl own ↦ rw own (others_have_room ms rows h.1)
    | inr other ↦ rw other ((inl other, free_of ms s other h.0), others_have_room ms rows h.1)
  ]

  -- Given messages that differ from each other and from those of the other items, the transaction
  -- succeeds; the item's segments are then these messages, in this order, each with the hash of its
  -- place or the empty text; and the rows of the other items are what they were.
  pub replace_segments-get :
      (messages : List String) (rows : List SegmentRow)
      → Distinct messages
      → All (IsFree messages) rows
      → (rows' : List SegmentRow) × (replace_segments id messages hashes now rows ≡ ok rows')
        × (get_segments rows' id ≡ shown 0 messages)
        × (delete_segments id rows' ≡ delete_segments id rows)
  unfolding replace_segments get_segments
  replace_segments-get messages rows d h =
      let kept = delete_segments id rows in
      let added = rows_of 0 messages in
      (
        kept ++ added,
        insert_segments-succeeds 0 messages kept d (others_have_room messages rows h),
        rw
            (
              keep-append (is_of_item id) kept added,
              keep-not (is_of_item id) rows,
              keep-rows_of 0 messages,
              by_position-rows_of 0 messages,
            )
            (map-rows_of 0 messages),
        keep-append (λ s. not (is_of_item id s)) kept added
            ∙ rw (drop-rows_of 0 messages, keep-twice (λ s. not (is_of_item id s)) rows)
                (append_nil kept),
      )
