-- ===== src/Rag/Resolution.antt =====
-- `resolve_vendor` of rag/retriever.py. `rapidfuzz.process.extractOne` and the search of the vector
-- index are parameters; scores are in hundredths of a point, and those of the index, which it gives
-- as a fraction, in ten-thousandths.
use invoice_to_payment_agent.Prelude.{
  ℕ, ◌*◌, Option, none, some, List, [], ◌∷◌, leb, if◌then◌else◌, find, map, String,
}
use invoice_to_payment_agent.Prelude.Text.{
  Text, text_eq, upper, lower, remove_spaces, text_or, is_given,
}
use invoice_to_payment_agent.Schemas.Erp.{Vendor}

pub record VendorHit : Type 0 where
  pub vendor_id : Text
  pub name : Text
  pub score : ℕ

pub record VendorResolution : Type 0 where
  pub vendor : Option Vendor
  pub score : ℕ
  pub method : String
  pub candidates : List Text

-- `s.replace(" ", "").upper()`
abbrev pub identifier : Text → Text
identifier s = upper (remove_spaces s)

-- The first vendor whose identifier is the wanted one.
unfoldable pub by_identifier : (Vendor → Option Text) → Option Text → List Vendor → Option Vendor
by_identifier field wanted vendors =
    if is_given wanted
    then find (λ v. text_eq (identifier (text_or (field v) [])) (identifier (text_or wanted [])))
        vendors
    else none

-- The dict of names and aliases: a later entry replaces an earlier one of its key, in its place.
abbrev pub Names : Type 0
Names = List (Text × Vendor)

unfoldable pub put_name : Text → Vendor → Names → Names
put_name key vendor [] = (key, vendor) ∷ []
put_name key vendor ((k, v) ∷ names) =
    if text_eq k key then (k, vendor) ∷ names else (k, v) ∷ put_name key vendor names

unfoldable pub put_aliases : List Text → Vendor → Names → Names
unfolding put_name
put_aliases [] vendor names = names
put_aliases (a ∷ as') vendor names = put_aliases as' vendor (put_name (lower a) vendor names)

unfoldable pub put_vendors : List Vendor → Names → Names
unfolding put_aliases
put_vendors [] names = names
put_vendors (v ∷ vs) names =
    put_vendors vs (put_aliases v.aliases v (put_name (lower v.name) v names))

-- `lookup[key]`; the key is one of the dict's.
unfoldable pub vendor_named : Text → Names → Option Vendor
vendor_named key [] = none
vendor_named key ((k, v) ∷ names) = if text_eq k key then some v else vendor_named key names

-- `by_id.get(vendor_id)`: the last vendor with the id.
unfoldable pub vendor_with_id : Text → List Vendor → Option Vendor
vendor_with_id id [] = none
vendor_with_id id (v ∷ vs) = elim (vendor_with_id id vs) [
  | some later ↦ some later
  | none ↦ if text_eq v.vendor_id id then some v else none
]

abbrev pub semantic_threshold : ℕ
semantic_threshold = 7500

-- The loop over the hits of the index.
unfoldable pub first_hit : List Vendor → List VendorHit → Option (Vendor × ℕ)
unfolding vendor_with_id
first_hit vendors [] = none
first_hit vendors (hit ∷ hits) = elim (vendor_with_id hit.vendor_id vendors) [
  | none ↦ first_hit vendors hits
  | some v ↦
      if leb semantic_threshold hit.score then some (v, hit.score) else first_hit vendors hits
]

abbrev pub unresolved : String → ℕ → List Text → VendorResolution
unresolved method score candidates = record {
  vendor = none;
  score = score;
  method = method;
  candidates = candidates;
}

abbrev pub resolved_as : Vendor → ℕ → String → List Text → VendorResolution
resolved_as v score method candidates = record {
  vendor = some v;
  score = score;
  method = method;
  candidates = candidates;
}

abbrev pub best_score : Option (Text × ℕ) → ℕ
best_score none = 0
best_score (some (_, score)) = score

abbrev pub hit_names : List VendorHit → List Text
hit_names = map (λ h. h.name)

-- `[best[0]] if best else [...]`
abbrev pub candidates_of : Option (Text × ℕ) → List VendorHit → List Text
candidates_of none hits = hit_names hits
candidates_of (some (key, _)) hits = key ∷ []

-- The name is good enough: `best is not None and best[1] >= threshold`.
abbrev pub accepted : ℕ → Option (Text × ℕ) → Names → Option (Vendor × Text × ℕ)
accepted threshold none names = none
accepted threshold (some (key, score)) names =
    if leb (threshold * 100) score
    then (elim (vendor_named key names) [ none ↦ none | some v ↦ some (v, key, score) ])
    else none

module _ (extract_one : Text → List Text → Option (Text × ℕ))
    (search_vendors : Text → List VendorHit) (threshold : ℕ) where
  -- Fuzzy name, then the index.
  unfoldable pub resolve_name : List Vendor → Text → VendorResolution
  unfolding put_vendors vendor_named first_hit
  resolve_name vendors name =
      let names = put_vendors vendors [] in
      let best = extract_one (lower name) (map (λ n. n.0) names) in
      let hits = search_vendors name in
      elim (accepted threshold best names) [
        | some (v, key, score) ↦ resolved_as v score "fuzzy_name" (key ∷ [])
        | none ↦ elim (first_hit vendors hits) [
          | some (v, score) ↦ resolved_as v score "semantic" (hit_names hits)
          | none ↦ unresolved "unresolved" (best_score best) (candidates_of best hits)
        ]
      ]

  unfoldable pub resolve_vendor :
      List Vendor → Option Text → Option Text → Option Text → VendorResolution
  unfolding by_identifier resolve_name
  resolve_vendor vendors name tax_id iban = elim (by_identifier (λ v. v.tax_id) tax_id vendors) [
    | some exact ↦ resolved_as exact 10000 "tax_id" []
    | none ↦ elim (by_identifier (λ v. v.iban) iban vendors) [
      | some exact ↦ resolved_as exact 10000 "iban" []
      | none ↦
          if is_given name then resolve_name vendors (text_or name []) else unresolved "none" 0 []
    ]
  ]
