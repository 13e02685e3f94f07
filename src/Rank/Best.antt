-- ===== src/Rank/Best.antt =====
-- What a search returns of the products.
use shopify_vitrina.Base.{
  ℕ, suc, zero, ◌≤◌, ◌≡◌, refl, sym, subst, ap, ◌∙◌, ◌⊎◌, Bool, true, false, ◌&&◌, not, Option,
  none, some, List, [], ◌∷◌, ◌++◌, All, All-map_to, length, Text, take, drop, arith, Bool-cases,
  inl, inr, select, map,
}
use shopify_vitrina.Rank.Products.{ShopifyProduct, Floats, SearchFilters, SearchHit}
use shopify_vitrina.Rank.Search.{
  tokenize, or_empty, is_excluded, falls_short, score_of, hits_of, insert_hit, sort_hits, up_to,
  rank_products,
}

abbrev pub count_of {ℓ} : {A : Type ℓ} → (A → Bool) → List A → ℕ
count_of q xs = length (select q xs)

take-drop {ℓ} : {A : Type ℓ} (n : ℕ) (xs : List A) → take n xs ++ drop n xs ≡ xs
unfolding take drop
take-drop zero xs = refl
take-drop (suc n) [] = refl
take-drop (suc n) (x ∷ xs) = ap (λ ys. x ∷ ys) (take-drop n xs)

module _ {Num : Type 0} (F : Floats Num) where
  -- No later hit has a greater score.
  abbrev pub Ranked : List (SearchHit Num) → Type 0
  Ranked [] = Unit
  Ranked (h ∷ hs) = All (λ k. F.lt h.score k.score ≡ false) hs × Ranked hs

  insert_hit-count :
      (q : SearchHit Num → Bool) (h : SearchHit Num) (ks : List (SearchHit Num))
      → count_of q (insert_hit F h ks) ≡ count_of q (h ∷ ks)
  unfolding insert_hit
  insert_hit-count q h [] = refl
  insert_hit-count q h (k ∷ ks) = elim (Bool-cases (F.lt h.score k.score)) [
    | inl e ↦ rw e (ground (arith, insert_hit-count q h ks))
    | inr e ↦ rw e refl
  ]

  sort_hits-count :
      (q : SearchHit Num → Bool) (hs : List (SearchHit Num))
      → count_of q (sort_hits F hs) ≡ count_of q hs
  unfolding sort_hits
  sort_hits-count q [] = refl
  sort_hits-count q (h ∷ hs) =
      insert_hit-count q h (sort_hits F hs) ∙ ground (arith, sort_hits-count q hs)

  insert_hit-all :
      (P : SearchHit Num → Type 0) (h : SearchHit Num) (ks : List (SearchHit Num))
      → P h
      → All P ks
      → All P (insert_hit F h ks)
  unfolding insert_hit
  insert_hit-all P h [] p a = (p, tt)
  insert_hit-all P h (k ∷ ks) p a = elim (Bool-cases (F.lt h.score k.score)) [
    | inl e ↦ rw e (a.0, insert_hit-all P h ks p a.1)
    | inr e ↦ rw e (p, a)
  ]

  module _ (asym : (a b : Num) → F.lt a b ≡ true → F.lt b a ≡ false)
      (trans : (a b c : Num) → F.lt a b ≡ false → F.lt b c ≡ false → F.lt a c ≡ false) where
    insert_hit-Ranked :
        (h : SearchHit Num) (ks : List (SearchHit Num)) → Ranked ks → Ranked (insert_hit F h ks)
    unfolding insert_hit
    insert_hit-Ranked h [] r = (tt, tt)
    insert_hit-Ranked h (k ∷ ks) r = elim (Bool-cases (F.lt h.score k.score)) [
      | inl e ↦ rw e (
        insert_hit-all (λ x. F.lt k.score x.score ≡ false) h ks (asym h.score k.score e) r.0,
        insert_hit-Ranked h ks r.1,
      )
      | inr e ↦ rw e ((e, All-map_to _ _ (λ x l. trans h.score k.score x.score e l) ks r.0), r)
    ]

    sort_hits-Ranked : (hs : List (SearchHit Num)) → Ranked (sort_hits F hs)
    unfolding sort_hits
    sort_hits-Ranked [] = tt
    sort_hits-Ranked (h ∷ hs) = insert_hit-Ranked h (sort_hits F hs) (sort_hits-Ranked hs)

  -- A product that is not excluded, and whose score does not fall short.
  abbrev pub answers : (Text → Text) → SearchFilters Num → ShopifyProduct → Bool
  answers normalize filters p =
      not (is_excluded F filters p)
      && not (
          falls_short F filters (tokenize normalize (or_empty filters.query))
            (score_of F normalize (tokenize normalize (or_empty filters.query)) p))

  abbrev pub hit_of : (Text → Text) → SearchFilters Num → ShopifyProduct → SearchHit Num
  hit_of normalize filters p = record {
    product = p;
    score = score_of F normalize (tokenize normalize (or_empty filters.query)) p;
  }

  hits_of-answers :
      (normalize : Text → Text) (filters : SearchFilters Num) (ps : List ShopifyProduct)
      → hits_of F normalize filters (tokenize normalize (or_empty filters.query)) ps
        ≡ map (hit_of normalize filters) (select (answers normalize filters) ps)
  unfolding hits_of
  hits_of-answers normalize filters [] = refl
  hits_of-answers normalize filters (p ∷ ps) = elim (Bool-cases (is_excluded F filters p)) [
    | inl e ↦ rw e (hits_of-answers normalize filters ps)
    | inr e ↦
        elim (Bool-cases (
          falls_short F filters (tokenize normalize (or_empty filters.query))
            (score_of F normalize (tokenize normalize (or_empty filters.query)) p))) [
              | inl f ↦ rw (e, f) (hits_of-answers normalize filters ps)
              | inr f ↦
                  rw (e, f)
                    (ap (λ hs. hit_of normalize filters p ∷ hs)
                      (hits_of-answers normalize filters ps))
            ]
  ]

  -- Nothing is dropped but past the limit.
  abbrev pub Within : Option ℕ → List (SearchHit Num) → List (SearchHit Num) → Type 0
  Within none kept dropped = dropped ≡ []
  Within (some n) kept dropped = (length kept ≤ n) × ((dropped ≡ []) ⊎ (length kept ≡ n))

  take-Within : (n : ℕ) (hs : List (SearchHit Num)) → Within (some n) (take n hs) (drop n hs)
  unfolding take drop
  take-Within zero hs = (omega arith, inr refl)
  take-Within (suc n) [] = (omega arith, inl refl)
  take-Within (suc n) (h ∷ hs) =
      let (l, r) = take-Within n hs in
      (omega (arith, l), elim r [ inl e ↦ inl e | inr e ↦ inr (ap suc e) ])

  limited :
      (o : Option ℕ) (hs : List (SearchHit Num))
      → (dropped : List (SearchHit Num)) × (up_to F o hs ++ dropped ≡ hs)
        × Within o (up_to F o hs) dropped
  limited none hs = ([], append-nil hs, refl)
    where
      append-nil : (ks : List (SearchHit Num)) → ks ++ [] ≡ ks
      append-nil [] = refl
      append-nil (k ∷ ks) = ap (λ xs. k ∷ xs) (append-nil ks)
  limited (some n) hs = (drop n hs, take-drop n hs, take-Within n hs)

  -- The products that a search returns, together with those past its limit, are the products that
  -- answer it, each as often as it is in the catalog; no hit has a greater score than one before it,
  -- and so none that is dropped than one that is returned. The comparison of scores is asymmetric
  -- and negatively transitive, as that of floating-point numbers is.
  pub rank_products-best :
      ((a b : Num) → F.lt a b ≡ true → F.lt b a ≡ false)
      → ((a b c : Num) → F.lt a b ≡ false → F.lt b c ≡ false → F.lt a c ≡ false)
      → (normalize : Text → Text) (products : List ShopifyProduct) (filters : SearchFilters Num)
      → (dropped : List (SearchHit Num)) × Ranked
          (rank_products F normalize products filters ++ dropped)
        × ((q : SearchHit Num → Bool)
            → count_of q (rank_products F normalize products filters ++ dropped)
              ≡ count_of q
                  (map (hit_of normalize filters) (select (answers normalize filters) products)))
        × Within filters.limit (rank_products F normalize products filters) dropped
  unfolding rank_products
  rank_products-best asym trans normalize products filters =
      let hits =
        hits_of F normalize filters (tokenize normalize (or_empty filters.query)) products in
      let (dropped, e, w) = limited filters.limit (sort_hits F hits) in
      (
        dropped,
        subst Ranked (sym e) (sort_hits-Ranked asym trans hits),
        λ q.
            ap (count_of q) e
            ∙ sort_hits-count q hits
            ∙ ap (count_of q) (hits_of-answers normalize filters products),
        w,
      )
