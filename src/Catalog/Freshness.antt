-- ===== src/Catalog/Freshness.antt =====
-- catalog.ts: `splitStored` and `missing` against a description of them by the stored rows alone.
use framework_module_resizer.Prelude.{
  String, Bool, true, false, not, ◌&&◌, ◌||◌, Option, none, some, List, [], ◌∷◌, ◌≡◌, ◌⊎◌, inl, inr,
  refl, ◌∙◌, ap, str_eq, if◌then◌else◌, is_some, filter, any, keep_if, subst, eq_iff, Bool-cases,
}
use framework_module_resizer.Types.{
  Json, Fields, PreviewScope, Preview, Dimensions, MediaLike, MissingPreview,
}
use framework_module_resizer.Catalog.Groups.{
  lookup, Distinct, with_more, group-lookup, group-Distinct,
}
use framework_module_resizer.Catalog.{
  Split, last, latest, with_row, with_stale, split_groups, is_stored_in, row_identity, is_fresh,
  expected_origin, stored_preview_rows, split_stored, missing, identity,
}

last_or : {A : Type 0} → Option A → List A → Option A
last_or kept [] = kept
last_or kept (x ∷ xs) = last (x ∷ xs)

last-cons : {A : Type 0} (x : A) (xs : List A) → last_or (some x) xs ≡ last (x ∷ xs)
unfolding last_or
last-cons x [] = refl
last-cons x (y ∷ xs) = refl

-- The loop keeps the last row that passes.
latest-last_or :
    {A : Type 0} (p : A → Bool) (xs : List A) (kept : Option A)
    → latest p xs kept ≡ last_or kept (filter p xs)
unfolding latest last_or
latest-last_or p [] kept = refl
latest-last_or p (x ∷ xs) kept = latest-last_or p xs _ ∙ by_test (p x)
  where
    by_test :
        (b : Bool)
        → last_or (if b then some x else kept) (filter p xs)
          ≡ last_or kept (keep_if b x (filter p xs))
    by_test true = last-cons x (filter p xs)
    by_test false = refl

latest-last : {A : Type 0} (p : A → Bool) (xs : List A) → latest p xs none ≡ last (filter p xs)
unfolding last_or
latest-last {A = A} p xs = latest-last_or p xs none ∙ by_list (filter p xs)
  where
    by_list : (ys : List A) → last_or none ys ≡ last ys
    by_list [] = refl
    by_list (y ∷ ys) = refl

-- What a group of rows puts under its identity.
abbrev fresh_of : (Preview → Bool) → Option (List Preview) → Option Preview
fresh_of p none = none
fresh_of p (some rows) = latest p rows none

abbrev pub unless : Option Preview → Option Preview → Option Preview
unless none row = row
unless (some f) row = none

abbrev stale_of : (Preview → Bool) → Option (List Preview) → Option Preview
stale_of p none = none
stale_of p (some rows) = unless (latest p rows none) (last rows)

-- What `split_groups` says of one identity.
abbrev Says : (Preview → Bool) → String → Option (List Preview) → Split → Type 0
Says p k rows s = (lookup k s.fresh ≡ fresh_of p rows) × (lookup k s.stale ≡ stale_of p rows)

module _ (p : Preview → Bool) (k j : String) (s : Split) where
  elsewhere :
      (rows : List Preview) (f : Option Preview) (o : Option (List Preview))
      → str_eq j k ≡ false
      → Says p k o s
      → Says p k o (with_row j rows f s)
  elsewhere rows (some row) o e (h, g) = (rw e h, g)
  elsewhere rows none o e (h, g) = stale (last rows)
    where
      stale : (l : Option Preview) → Says p k o (with_stale j l s)
      stale none = (h, g)
      stale (some r) = (h, rw e g)

  here :
      (rows : List Preview) (f : Option Preview)
      → str_eq j k ≡ true
      → Says p k none s
      → (lookup k (with_row j rows f s).fresh ≡ f)
        × (lookup k (with_row j rows f s).stale ≡ unless f (last rows))
  here rows (some row) e (h, g) = (rw e refl, g)
  here rows none e (h, g) = stale (last rows)
    where
      stale :
          (l : Option Preview)
          → (lookup k (with_stale j l s).fresh ≡ none) × (lookup k (with_stale j l s).stale ≡ l)
      stale none = (h, g)
      stale (some r) = (h, rw e refl)

split_groups-Says :
    (p : Preview → Bool) (k : String) (m : List (String × List Preview))
    → Distinct m
    → Says p k (lookup k m) (split_groups p m)
unfolding split_groups Distinct
split_groups-Says p k [] d = (refl, refl)
split_groups-Says p k ((j, rows) ∷ m) (only, d) =
    by_test (Bool-cases (str_eq j k)) (split_groups-Says p k m d)
  where
    by_test :
        (str_eq j k ≡ true) ⊎ (str_eq j k ≡ false)
        → Says p k (lookup k m) (split_groups p m)
        → Says p k
            (if str_eq j k then some rows else lookup k m)
            (with_row j rows (latest p rows none) (split_groups p m))
    by_test (inr e) ih =
        rw e (elsewhere p k j (split_groups p m) rows (latest p rows none) (lookup k m) e ih)
    by_test (inl e) ih =
        let same : j ≡ k = (eq_iff j k).0 e in
        let gone : lookup k m ≡ none = subst (λ i. lookup i m ≡ none) same only in
        rw e (
          here p k j (split_groups p m) rows (latest p rows none) e
            (subst (λ o. Says p k o (split_groups p m)) gone ih))

is_some-last : {A : Type 0} (x : A) (xs : List A) → is_some (last (x ∷ xs)) ≡ true
is_some-last x [] = refl
is_some-last x (y ∷ xs) = is_some-last y xs

is_some-last-filter :
    {A : Type 0} (p q : A → Bool) (xs : List A)
    → is_some (last (filter p (filter q xs))) ≡ any (λ x. q x && p x) xs
is_some-last-filter p q [] = refl
is_some-last-filter {A = A} p q (x ∷ xs) = by_first (q x) (is_some-last-filter p q xs)
  where
    by_second :
        (c : Bool)
        → is_some (last (filter p (filter q xs))) ≡ any (λ y. q y && p y) xs
        → is_some (last (keep_if c x (filter p (filter q xs)))) ≡ c || any (λ y. q y && p y) xs
    by_second true ih = is_some-last x (filter p (filter q xs))
    by_second false ih = ih

    by_first :
        (b : Bool)
        → is_some (last (filter p (filter q xs))) ≡ any (λ y. q y && p y) xs
        → is_some (last (filter p (keep_if b x (filter q xs))))
          ≡ b && p x || any (λ y. q y && p y) xs
    by_first true ih = by_second (p x) ih
    by_first false ih = ih

filter-agree :
    {A : Type 0} (p q : A → Bool) (xs : List A) → ((x : A) → p x ≡ q x) → filter p xs ≡ filter q xs
filter-agree p q [] e = refl
filter-agree p q (x ∷ xs) e = rw (e x, filter-agree p q xs e) refl

-- A group of rows, in the words of the rows.
Says-rows_lem :
    (p : Preview → Bool) (k : String) (s : Split) (rows : List Preview)
    → Says p k (with_more none rows) s
    → (lookup k s.fresh ≡ last (filter p rows))
      × (lookup k s.stale ≡ unless (last (filter p rows)) (last rows))
Says-rows_lem p k s [] h = h
Says-rows_lem p k s (x ∷ xs) (h, g) =
    (h ∙ latest-last p (x ∷ xs), g ∙ ap (λ o. unless o (last (x ∷ xs))) (latest-last p (x ∷ xs)))

module _ (encode : String → String) (filter_sig : Option Fields → String)
    (preview_origin : Json → Dimensions → String)
    (encode_sig : String → String → Bool → String) where
  -- The stored rows of a scope with one identity, in store order.
  abbrev pub rows_of : MediaLike → PreviewScope → String → List Preview
  rows_of media scope k =
      filter
        (λ p.
          is_stored_in scope p
          && str_eq (row_identity encode filter_sig preview_origin encode_sig p) k)
        media.previews

  -- The last fresh one of them.
  abbrev pub last_fresh : MediaLike → PreviewScope → Option Dimensions → String → Option Preview
  last_fresh media scope dims k = last (
      filter
        (is_fresh encode filter_sig preview_origin encode_sig scope
          (expected_origin encode filter_sig preview_origin encode_sig media.original dims))
        (rows_of media scope k))

  -- For every identity, the fresh row that `splitStored` gives is the last fresh one of the usable
  -- rows of the scope with that identity, wherever it stands among them; only when none of them is
  -- fresh there is a stale row, the last one. An identity is never both fresh and stale.
  pub split_stored-lookup :
      (media : MediaLike) (scope : PreviewScope) (dims : Option Dimensions) (k : String)
      → (lookup k (split_stored encode filter_sig preview_origin encode_sig media scope dims).fresh
          ≡ last_fresh media scope dims k)
        × (lookup k
              (split_stored encode filter_sig preview_origin encode_sig media scope dims).stale
            ≡ unless (last_fresh media scope dims k) (last (rows_of media scope k)))
  unfolding split_stored stored_preview_rows Distinct
  split_stored-lookup media scope dims k =
      let stored = stored_preview_rows encode filter_sig preview_origin encode_sig media scope in
      let fresh =
        is_fresh encode filter_sig preview_origin encode_sig scope
          (expected_origin encode filter_sig preview_origin encode_sig media.original dims) in
      let id = row_identity encode filter_sig preview_origin encode_sig in
      Says-rows_lem fresh k (split_groups fresh stored) (rows_of media scope k) (
        subst (λ o. Says fresh k o (split_groups fresh stored))
          (group-lookup (is_stored_in scope) id k media.previews [])
          (split_groups-Says fresh k stored
            (group-Distinct (is_stored_in scope) id media.previews [] tt)))

  -- `missing` keeps a request exactly when no usable row of the scope with its identity is fresh, by
  -- the stored dimensions, and keeps the order of the requests.
  pub missing_lem :
      (media : MediaLike) (requests : List MissingPreview) (scope : PreviewScope)
      → missing encode filter_sig preview_origin encode_sig media requests scope
        ≡ filter
            (λ v. not (
              any
                (λ p.
                  is_stored_in scope p
                  && str_eq
                      (row_identity encode filter_sig preview_origin encode_sig p)
                      (identity encode filter_sig preview_origin encode_sig scope v)
                  && is_fresh encode filter_sig preview_origin encode_sig scope
                      (expected_origin encode filter_sig preview_origin encode_sig media.original
                        none)
                      p)
                media.previews))
            requests
  unfolding missing
  missing_lem media requests scope = filter-agree _ _ requests λ v. ap not (
      ap is_some (split_stored-lookup media scope none _).0
      ∙ is_some-last-filter _ _ media.previews)
