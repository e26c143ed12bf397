-- ===== src/Db/Table.antt =====
-- A table as a list of rows with a uniqueness test, and what SQL's INSERT, UPDATE and DELETE do
-- with it. The order of the list carries no meaning.
use event_saver.Prelude.{
  ◌≡◌, refl, ◌∙◌, Bool, true, false, List, [], ◌∷◌, arith, Bool-cases, inl, inr, any, if◌then◌else◌,
}

module _ {A : Type 0} where
  -- `insert ... on conflict do nothing`: a row that violates a unique constraint is dropped.
  unfoldable pub insert_or_ignore : (A → A → Bool) → A → List A → List A
  insert_or_ignore clash r rows = if any (clash r) rows then rows else r ∷ rows

  -- `update ... where`
  unfoldable pub update_where : (A → Bool) → (A → A) → List A → List A
  update_where p f [] = []
  update_where p f (r ∷ rows) = (if p r then f r else r) ∷ update_where p f rows

  -- `insert ... on conflict (key) do update set ...`
  unfoldable pub upsert : (A → A → Bool) → (A → A) → A → List A → List A
  upsert clash merge r rows =
      if any (clash r) rows then update_where (clash r) merge rows else r ∷ rows

  -- `delete ... where`
  unfoldable pub delete_where : (A → Bool) → List A → List A
  delete_where p [] = []
  delete_where p (r ∷ rows) = if p r then delete_where p rows else r ∷ delete_where p rows

  -- No two rows violate the constraint.
  abbrev pub IsUnique : (A → A → Bool) → List A → Type 0
  IsUnique clash [] = Unit
  IsUnique clash (r ∷ rows) = (any (clash r) rows ≡ false) × IsUnique clash rows

  pub insert_or_ignore-IsUnique :
      (clash : A → A → Bool) (r : A) (rows : List A)
      → IsUnique clash rows
      → IsUnique clash (insert_or_ignore clash r rows)
  unfolding insert_or_ignore
  insert_or_ignore-IsUnique clash r rows h = ground arith

  pub any-update_where :
      (q p : A → Bool) (f : A → A) (rows : List A)
      → ((r : A) → p r ≡ true → q (f r) ≡ q r)
      → any q (update_where p f rows) ≡ any q rows
  unfolding update_where
  any-update_where q p f [] same = refl
  any-update_where q p f (r ∷ rows) same = ground (arith, same r, any-update_where q p f rows same)

  any-same : (q q' : A → Bool) (rows : List A) → ((s : A) → q s ≡ q' s) → any q rows ≡ any q' rows
  any-same q q' [] same = refl
  any-same q q' (s ∷ rows) same = ground (arith, same s, any-same q q' rows same)

  -- An update that leaves the key columns of the rows that it reaches alone keeps the constraint.
  pub update_where-IsUnique :
      (clash : A → A → Bool) (p : A → Bool) (f : A → A) (rows : List A)
      → ((r s : A) → p r ≡ true → clash (f r) s ≡ clash r s)
      → ((r s : A) → p s ≡ true → clash r (f s) ≡ clash r s)
      → IsUnique clash rows
      → IsUnique clash (update_where p f rows)
  unfolding update_where
  update_where-IsUnique clash p f [] left right h = tt
  update_where-IsUnique clash p f (r ∷ rows) left right h =
      (head (p r) refl, update_where-IsUnique clash p f rows left right h.1)
    where
      head :
          (b : Bool) → p r ≡ b → any (clash (if b then f r else r)) (update_where p f rows) ≡ false
      head true hit =
          any-update_where (clash (f r)) p f rows (λ s. right (f r) s)
          ∙ any-same (clash (f r)) (clash r) rows (λ s. left r s hit)
          ∙ h.0
      head false miss = any-update_where (clash r) p f rows (λ s. right r s) ∙ h.0

  pub upsert-IsUnique :
      (clash : A → A → Bool) (merge : A → A) (r : A) (rows : List A)
      → ((s t : A) → clash r s ≡ true → clash (merge s) t ≡ clash s t)
      → ((s t : A) → clash r t ≡ true → clash s (merge t) ≡ clash s t)
      → IsUnique clash rows
      → IsUnique clash (upsert clash merge r rows)
  unfolding upsert
  upsert-IsUnique clash merge r rows left right h = elim (Bool-cases (any (clash r) rows)) [
    | inl taken ↦ rw taken (update_where-IsUnique clash (clash r) merge rows left right h)
    | inr free ↦ rw free (free, h)
  ]

  any-delete_where :
      (q p : A → Bool) (rows : List A) → any q rows ≡ false → any q (delete_where p rows) ≡ false
  unfolding delete_where
  any-delete_where q p [] h = refl
  any-delete_where q p (r ∷ rows) h = ground (arith, any-delete_where q p rows)

  pub delete_where-IsUnique :
      (clash : A → A → Bool) (p : A → Bool) (rows : List A)
      → IsUnique clash rows
      → IsUnique clash (delete_where p rows)
  unfolding delete_where
  delete_where-IsUnique clash p [] h = tt
  delete_where-IsUnique clash p (r ∷ rows) h =
      ground (arith, delete_where-IsUnique clash p rows h.1, any-delete_where (clash r) p rows h.0)

  -- A row that the constraint accepts is there afterwards; one that it refuses was there before.
  pub any-insert_or_ignore :
      (q : A → Bool) (clash : A → A → Bool) (r : A) (rows : List A)
      → any q rows ≡ true
      → any q (insert_or_ignore clash r rows) ≡ true
  unfolding insert_or_ignore
  any-insert_or_ignore q clash r rows h = ground arith
