-- ===== src/Jobs/Claims.antt =====
-- What a claim does to a queue whose ids are distinct: exactly the first claimable row changes.
use forum_relay.Common.{
  ℕ, ◌≡◌, ◌≢◌, refl, sym, subst, String, Bool, true, none, some, List, [], ◌∷◌, ◌++◌, arith,
  text_iff, All, All-map, Ordered, Ordered-before, update_where, find, string_eq,
}
use forum_relay.Schema.Jobs.{Row}
use forum_relay.Jobs.{first_claimable, claim_first, claimed, has_id}
use forum_relay.Jobs.First.{IsFirst, first_claimable-some, AllFail}

module _ {A : Type 0} where
  abbrev pub Distinct : List (Row A) → Type 0
  Distinct = Ordered (λ x y. x.id ≢ y.id)

  update_where_absent :
      (id : String) (f : Row A → Row A) (xs : List (Row A))
      → All (λ x. x.id ≢ id) xs
      → update_where (has_id id) f xs ≡ xs
  update_where_absent id f [] h = refl
  update_where_absent id f (x ∷ xs) h =
      ground (arith, text_iff x.id id, update_where_absent id f xs)

  flip_ne : (id : String) (xs : List (Row A)) → All (λ x. id ≢ x.id) xs → All (λ x. x.id ≢ id) xs
  flip_ne id = All-map (λ x. id ≢ x.id) (λ x. x.id ≢ id) (λ x h e. h (sym e))

  pub update_where_split :
      (f : Row A → Row A) (xs : List (Row A)) (r : Row A) (ys : List (Row A))
      → Distinct (xs ++ r ∷ ys)
      → update_where (has_id r.id) f (xs ++ r ∷ ys) ≡ xs ++ f r ∷ ys
  update_where_split f [] r ys h =
      ground (arith, text_iff r.id r.id, update_where_absent r.id f ys (flip_ne r.id ys h.0))
  update_where_split f (x ∷ xs) r ys h =
      ground (arith, text_iff x.id r.id, update_where_split f xs r ys h.1, apart)
    where
      apart : x.id ≢ r.id
      apart = (Ordered-before (λ x y. x.id ≢ y.id) (x ∷ xs) r ys h).0

  pub find_split :
      (xs : List (Row A)) (r : Row A) (ys : List (Row A))
      → All (λ x. x.id ≢ r.id) xs
      → find (has_id r.id) (xs ++ r ∷ ys) ≡ some r
  find_split [] r ys h = ground (arith, text_iff r.id r.id)
  find_split (x ∷ xs) r ys h = ground (arith, text_iff x.id r.id, find_split xs r ys)

module _ {A : Type 0} (test : List (Row A) → Row A → Bool) (owner : String) (duration now : ℕ) where
  -- The claim took `r`, the first claimable row.
  pub record Takes (rows rows' : List (Row A)) (r : Row A) : Type 0 where
    pub before : List (Row A)
    pub after : List (Row A)
    pub split : rows ≡ before ++ r ∷ after
    pub result : rows' ≡ before ++ claimed owner duration now r ∷ after
    pub passes : test before r ≡ true
    pub none_before : AllFail test [] before

  pub claim_first-some :
      (rows : List (Row A)) (r : Row A)
      → Distinct rows
      → first_claimable test [] rows ≡ some r
      → Takes rows (claim_first test owner duration now rows).0 r
        × ((claim_first test owner duration now rows).1 ≡ some (claimed owner duration now r))
  unfolding claim_first
  claim_first-some rows r d e =
      rw (e, claim_first)
        (
          record {
            before = f.before;
            after = f.after;
            split = f.split;
            result = after_claim;
            passes = f.passes;
            none_before = f.none_before;
          },
          returned,
        )
    where
      f : IsFirst test [] rows r
      f = first_claimable-some test [] rows r e

      distinct : Distinct (f.before ++ r ∷ f.after)
      distinct = subst Distinct f.split d

      r' : Row A
      r' = claimed owner duration now r

      after_claim :
          update_where (has_id r.id) (claimed owner duration now) rows ≡ f.before ++ r' ∷ f.after
      after_claim =
          rw f.split (update_where_split (claimed owner duration now) f.before r f.after distinct)

      returned :
          find (has_id r.id) (update_where (has_id r.id) (claimed owner duration now) rows)
          ≡ some r'
      returned = rw after_claim (
          find_split f.before r' f.after
            (Ordered-before (λ x y. x.id ≢ y.id) f.before r f.after distinct))

  pub claim_first-none :
      (rows : List (Row A))
      → first_claimable test [] rows ≡ none
      → claim_first test owner duration now rows ≡ (rows, none)
  unfolding claim_first
  claim_first-none rows e = rw (e, claim_first)
