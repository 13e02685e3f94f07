-- ===== src/Rank/Search.antt =====
-- The scoring and the sorting of products, of server/src/shopify/rank.ts.
use shopify_vitrina.Base.{
  ℕ, ◌-◌, max, Bool, false, ◌&&◌, ◌||◌, not, Option, none, some, List, [], ◌∷◌, if◌then◌else◌, any,
  ltb, length, Text, str, ◌==◌, is_empty, take, select, ◌+◌,
}
use shopify_vitrina.Rank.Products.{
  ShopifyVariant, ShopifyProduct, Floats, SearchFilters, SearchHit, fuzzy_min_length, split_spaces,
  haystack_for, is_number, contains, has_stock,
}
use shopify_vitrina.Rank.Distance.{edit_distance}

abbrev stopwords : List Text
stopwords =
    str "a"
    ∷ str "al"
    ∷ str "algun"
    ∷ str "alguna"
    ∷ str "algunas"
    ∷ str "alguno"
    ∷ str "algunos"
    ∷ str "con"
    ∷ str "cual"
    ∷ str "cuales"
    ∷ str "de"
    ∷ str "del"
    ∷ str "el"
    ∷ str "en"
    ∷ str "es"
    ∷ str "esta"
    ∷ str "hay"
    ∷ str "la"
    ∷ str "las"
    ∷ str "lo"
    ∷ str "los"
    ∷ str "me"
    ∷ str "mi"
    ∷ str "o"
    ∷ str "para"
    ∷ str "por"
    ∷ str "que"
    ∷ str "se"
    ∷ str "si"
    ∷ str "sin"
    ∷ str "su"
    ∷ str "sus"
    ∷ str "tenemos"
    ∷ str "tiene"
    ∷ str "tienen"
    ∷ str "tienes"
    ∷ str "un"
    ∷ str "una"
    ∷ str "unas"
    ∷ str "unos"
    ∷ str "y"
    ∷ str "algo"
    ∷ str "articulo"
    ∷ str "articulos"
    ∷ str "busca"
    ∷ str "buscamos"
    ∷ str "buscando"
    ∷ str "busco"
    ∷ str "disponible"
    ∷ str "disponibles"
    ∷ str "necesito"
    ∷ str "producto"
    ∷ str "productos"
    ∷ str "quiero"
    ∷ str "venden"
    ∷ str "vendes"
    ∷ []

abbrev pub is_token : Text → Bool
is_token w = not (is_empty w) && not (any (λ s. s == w) stopwords)

abbrev pub or_empty : Option Text → Text
or_empty none = []
or_empty (some s) = s

unfoldable pub tokenize : (Text → Text) → Text → List Text
tokenize normalize value =
    if is_empty value then [] else select is_token (split_spaces (normalize value))

abbrev distance_of : ℕ → ℕ → ℕ
distance_of m n = (m - n) + (n - m)

module _ {Num : Type 0} (F : Floats Num) where
  unfoldable pub ratio : Text → Text → Num
  ratio token word =
      F.sub F.one
        (F.div (F.of_nat (edit_distance token word)) (F.of_nat (max (length token) (length word))))

  -- The loop over the words.
  unfoldable pub fuzzy : Text → List Text → Num
  fuzzy token [] = F.zero
  fuzzy token (word ∷ words) =
      let later = fuzzy token words in
      if ltb 2 (distance_of (length word) (length token))
      then later
      else if F.lt (ratio token word) F.fuzzy_min_ratio
      then later
      else F.fuzzy_score

  unfoldable pub score_token : Text → List Text → Num
  score_token token haystack =
      if is_number token
      then if any (λ w. w == token) haystack then F.one else F.zero
      else if any (contains token) haystack
      then F.one
      else if ltb (length token) fuzzy_min_length
      then F.zero
      else fuzzy token haystack

  unfoldable pub sum_scores : List Text → Num → List Text → Num
  sum_scores haystack sum [] = sum
  sum_scores haystack sum (token ∷ tokens) =
      sum_scores haystack (F.add sum (score_token token haystack)) tokens

  -- `Math.min(...prices)`, on the first.
  unfoldable pub least : Num → List Num → Num
  least p [] = p
  least p (q ∷ qs) = least (if F.lt q p then q else p) qs

  abbrev add_price : Option Num → List Num → List Num
  add_price none ps = ps
  add_price (some p) ps = p ∷ ps

  unfoldable pub prices_of : List ShopifyVariant → List Num
  prices_of [] = []
  prices_of (v ∷ vs) = add_price (F.parse_finite v.price) (prices_of vs)

  abbrev least_of_all : List Num → Option Num
  least_of_all [] = none
  least_of_all (p ∷ ps) = some (least p ps)

  unfoldable pub lowest_price : ShopifyProduct → Option Num
  lowest_price product = least_of_all (prices_of product.variants)

  abbrev or_num : Option Num → Num → Num
  or_num none n = n
  or_num (some m) n = m

  abbrev below_min : Option Num → Option Num → Bool
  below_min price none = false
  below_min price (some m) = F.lt (or_num price F.zero) m

  abbrev above_max : Option Num → Option Num → Bool
  above_max price none = false
  above_max price (some m) = F.lt m (or_num price F.max_safe_integer)

  -- The constraints that were stated.
  unfoldable pub is_excluded : SearchFilters Num → ShopifyProduct → Bool
  is_excluded filters product =
      below_min (lowest_price product) filters.min_price
      || above_max (lowest_price product) filters.max_price
      || (filters.in_stock_only && not (has_stock product))

  unfoldable pub score_of : (Text → Text) → List Text → ShopifyProduct → Num
  score_of normalize [] product = F.one
  score_of normalize (t ∷ tokens) product =
      F.div (sum_scores (haystack_for normalize product) F.zero (t ∷ tokens))
        (F.of_nat (length (t ∷ tokens)))

  -- Without words every product answers.
  unfoldable pub falls_short : SearchFilters Num → List Text → Num → Bool
  falls_short filters [] score = false
  falls_short filters (t ∷ tokens) score = F.lt score (or_num filters.min_score F.default_min_score)

  unfoldable pub hits_of :
      (Text → Text) → SearchFilters Num → List Text → List ShopifyProduct → List (SearchHit Num)
  hits_of normalize filters tokens [] = []
  hits_of normalize filters tokens (product ∷ products) =
      let hits = hits_of normalize filters tokens products in
      let score = score_of normalize tokens product in
      if is_excluded filters product
      then hits
      else if falls_short filters tokens score
      then hits
      else record { product = product; score = score } ∷ hits

  -- `sort((a, b) => b.score - a.score)`, which keeps the order of equals.
  unfoldable pub insert_hit : SearchHit Num → List (SearchHit Num) → List (SearchHit Num)
  insert_hit h [] = h ∷ []
  insert_hit h (k ∷ ks) =
      let later = insert_hit h ks in if F.lt h.score k.score then k ∷ later else h ∷ k ∷ ks

  unfoldable pub sort_hits : List (SearchHit Num) → List (SearchHit Num)
  sort_hits [] = []
  sort_hits (h ∷ hs) = insert_hit h (sort_hits hs)

  abbrev pub up_to : Option ℕ → List (SearchHit Num) → List (SearchHit Num)
  up_to none hs = hs
  up_to (some n) hs = take n hs

  unfoldable pub rank_products :
      (Text → Text) → List ShopifyProduct → SearchFilters Num → List (SearchHit Num)
  rank_products normalize products filters =
      up_to filters.limit (
        sort_hits
          (hits_of normalize filters (tokenize normalize (or_empty filters.query)) products))
