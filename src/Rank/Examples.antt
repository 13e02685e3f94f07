-- ===== src/Rank/Examples.antt =====
-- Two shirts and a cup, searched in hundredths; and a mistyped word.
use shopify_vitrina.Base.{
  ℕ, ◌+◌, ◌-◌, ◌*◌, ◌/◌, ◌≤◌, ◌≡◌, refl, Bool, true, none, some, List, [], ◌∷◌, ◌++◌, map, select,
  ltb, length, Text, str, arith,
}
use shopify_vitrina.Rank.Products.{
  ShopifyProduct, ShopifyVariant, active, pos, Floats, SearchFilters, SearchHit,
}
use shopify_vitrina.Rank.Distance.{edit_distance, fill, rows_from, count_from, at_length}
use shopify_vitrina.Rank.Edits.{Edits, onto, edit_distance-least}
use shopify_vitrina.Rank.Search.{rank_products}
use shopify_vitrina.Rank.Best.{Ranked, count_of, hit_of, answers, Within, rank_products-best}

abbrev hundredths : Floats ℕ
hundredths = record {
  zero = 0;
  one = 100;
  max_safe_integer = 9_007_199_254_740_991;
  default_min_score = 60;
  fuzzy_min_ratio = 80;
  fuzzy_score = 80;
  of_nat = λ n. n * 100;
  add = λ a b. a + b;
  sub = λ a b. a - b;
  div = λ a b. a * 100 / b;
  lt = ltb;
  parse_finite = λ s. some (length s);
}

abbrev variant_of : Text → ShopifyVariant
variant_of sku = record {
  id = sku;
  sku = some sku;
  title = str "Default Title";
  price = str "45000.00";
  compare_at_price = none;
  inventory_quantity = some (pos 3);
  inventory_item_id = sku;
  inventory_tracked = true;
  selected_options = [];
}

abbrev product_of : Text → ShopifyProduct
product_of title = record {
  id = title;
  handle = title;
  title = title;
  description = [];
  status = active;
  product_type = [];
  vendor = [];
  tags = [];
  total_inventory = some (pos 3);
  online_store_url = none;
  media_count = 0;
  options = [];
  variants = variant_of (str "v1") ∷ [];
  updated_at = str "2026-01-01";
}

abbrev catalog : List ShopifyProduct
catalog =
    product_of (str "camiseta negra") ∷ product_of (str "taza") ∷ product_of (str "camiseta") ∷ []

abbrev black_shirt : SearchFilters ℕ
black_shirt = record {
  query = some (str "camiseta negra");
  min_price = none;
  max_price = none;
  in_stock_only = true;
  min_score = some 50;
  limit = some 1;
}

rank_products-best_example :
    (dropped : List (SearchHit ℕ)) × Ranked hundredths
      (rank_products hundredths (λ s. s) catalog black_shirt ++ dropped)
    × ((q : SearchHit ℕ → Bool)
        → count_of q (rank_products hundredths (λ s. s) catalog black_shirt ++ dropped)
          ≡ count_of q (
              map
                (hit_of hundredths (λ s. s) black_shirt)
                (select (answers hundredths (λ s. s) black_shirt) catalog)))
    × Within hundredths (some 1) (rank_products hundredths (λ s. s) catalog black_shirt) dropped
rank_products-best_example =
    rank_products-best hundredths (λ a b h. ground (arith, h)) (λ a b c h k. ground (arith, h, k))
      (λ s. s) catalog black_shirt

one_swap : edit_distance (str "camisteas") (str "camisetas") ≡ 2
unfolding edit_distance fill rows_from count_from at_length
one_swap = refl

edit_distance-least_example :
    Edits
      (onto (str "negar") [])
      (onto (str "negra") [])
      (edit_distance (str "negar") (str "negra"))
    × ((n : ℕ)
        → Edits (onto (str "negar") []) (onto (str "negra") []) n
        → edit_distance (str "negar") (str "negra") ≤ n)
edit_distance-least_example = edit_distance-least (str "negar") (str "negra")
