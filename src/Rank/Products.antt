-- ===== src/Rank/Products.antt =====
-- The types of a product, of server/src/shopify/types.ts, and what is searched in it, of
-- server/src/shopify/rank.ts.
use shopify_vitrina.Base.{
  ℕ, Bool, true, false, ◌&&◌, ◌||◌, not, Option, none, some, List, [], ◌∷◌, ◌++◌, if◌then◌else◌,
  any, eqb, ltb, Text, str, ◌==◌, is_digit, is_empty, starts_with, select,
}
use shopify_vitrina.Turn.{truthy}

pub data ℤ : Type 0 where
  pos : ℕ → ℤ
  negsuc : ℕ → ℤ

pub data ProductStatus : Type 0 where
  active draft archived : ProductStatus

pub record SelectedOption : Type 0 where
  pub name : Text
  pub value : Text

pub record ShopifyVariant : Type 0 where
  pub id : Text
  pub sku : Option Text
  pub title : Text
  pub price : Text
  pub compare_at_price : Option Text
  pub inventory_quantity : Option ℤ
  pub inventory_item_id : Text
  pub inventory_tracked : Bool
  pub selected_options : List SelectedOption

pub record ProductOption : Type 0 where
  pub name : Text
  pub values : List Text

pub record ShopifyProduct : Type 0 where
  pub id : Text
  pub handle : Text
  pub title : Text
  pub description : Text
  pub status : ProductStatus
  pub product_type : Text
  pub vendor : Text
  pub tags : List Text
  pub total_inventory : Option ℤ
  pub online_store_url : Option Text
  pub media_count : ℕ
  pub options : List ProductOption
  pub variants : List ShopifyVariant
  pub updated_at : Text

abbrev pub fuzzy_min_length : ℕ
fuzzy_min_length = 4

-- Floating-point numbers other than NaN, which does not come up, with the constants of the ranking.
pub record Floats (Num : Type 0) : Type 0 where
  pub zero : Num
  pub one : Num
  pub max_safe_integer : Num
  pub default_min_score : Num
  pub fuzzy_min_ratio : Num
  pub fuzzy_score : Num
  pub of_nat : ℕ → Num
  pub add : Num → Num → Num
  pub sub : Num → Num → Num
  pub div : Num → Num → Num
  pub lt : Num → Num → Bool
  -- `Number.parseFloat`, `none` where it is not finite.
  pub parse_finite : Text → Option Num

pub record SearchFilters (Num : Type 0) : Type 0 where
  pub query : Option Text
  pub min_price : Option Num
  pub max_price : Option Num
  pub in_stock_only : Bool
  pub min_score : Option Num
  pub limit : Option ℕ

pub record SearchHit (Num : Type 0) : Type 0 where
  pub product : ShopifyProduct
  pub score : Num

abbrev push_first : ℕ → List Text → List Text
push_first c [] = (c ∷ []) ∷ []
push_first c (w ∷ ws) = (c ∷ w) ∷ ws

-- `split(" ")`
unfoldable pub split_spaces : Text → List Text
split_spaces [] = [] ∷ []
split_spaces (c ∷ s) =
    let rest = split_spaces s in if eqb c b' ' then [] ∷ rest else push_first c rest

-- `filter(Boolean)` on the words of a text in normal form.
unfoldable pub words_of : Text → List Text
words_of s = select (λ w. not (is_empty w)) (split_spaces s)

unfoldable pub pairs_of : List Text → List Text
pairs_of [] = []
pairs_of (w ∷ []) = []
pairs_of (w ∷ v ∷ ws) = (w ++ v) ∷ pairs_of (v ∷ ws)

unfoldable pub words_and_pairs : (Text → Text) → Text → List Text
words_and_pairs normalize raw = words_of (normalize raw) ++ pairs_of (words_of (normalize raw))

-- `join(" ")`
unfoldable pub join_spaces : List Text → Text
join_spaces [] = []
join_spaces (w ∷ []) = w
join_spaces (w ∷ v ∷ ws) = w ++ b' ' ∷ join_spaces (v ∷ ws)

unfoldable pub option_values : List SelectedOption → List Text
option_values [] = []
option_values (o ∷ os) =
    let rest = option_values os in
    if not (is_empty o.value) && not (o.value == str "Default Title") then o.value ∷ rest else rest

abbrev sku_part : Option Text → List Text
sku_part sku = elim (truthy sku) [ none ↦ [] | some s ↦ s ∷ [] ]

unfoldable pub variant_parts : List ShopifyVariant → List Text
variant_parts [] = []
variant_parts (v ∷ vs) = option_values v.selected_options ++ sku_part v.sku ++ variant_parts vs

-- `[...new Set(parts)]`, on what is in it.
unfoldable pub distinct : List Text → List Text → List Text
distinct seen [] = []
distinct seen (w ∷ ws) =
    if any (λ v. v == w) seen then distinct seen ws else w ∷ distinct (w ∷ seen) ws

unfoldable pub variant_text : ShopifyProduct → Text
variant_text product = join_spaces (distinct [] (variant_parts product.variants))

unfoldable pub haystack_for : (Text → Text) → ShopifyProduct → List Text
haystack_for normalize product = words_and_pairs normalize (
    join_spaces (
      product.title
      ∷ product.description
      ∷ product.handle
      ∷ product.product_type
      ∷ product.vendor
      ∷ join_spaces product.tags
      ∷ variant_text product
      ∷ []))

-- `/^\d+$/`
abbrev all_digits : Text → Bool
all_digits [] = true
all_digits (c ∷ s) = is_digit c && all_digits s

abbrev pub is_number : Text → Bool
is_number s = not (is_empty s) && all_digits s

-- `word.includes(token)`, on the token first.
unfoldable pub contains : Text → Text → Bool
contains token [] = is_empty token
contains token (c ∷ word) = starts_with token (c ∷ word) || contains token word

abbrev pub positive : Option ℤ → Bool
positive none = false
positive (some (pos n)) = ltb 0 n
positive (some (negsuc n)) = false

unfoldable pub variant_sellable : ShopifyVariant → Bool
variant_sellable v = not v.inventory_tracked || positive v.inventory_quantity

unfoldable pub has_stock : ShopifyProduct → Bool
has_stock product = any variant_sellable product.variants
