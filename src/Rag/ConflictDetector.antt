-- ===== src/Rag/ConflictDetector.antt =====
-- rag/conflict_detector.py: sources that contradict each other, on ASCII text. Dates are ordinals,
-- of which `date.min` is 1.
pub mod Patterns
pub mod Preferred
use bfsi_voice_agent.Prelude.{
  ℕ, String, Bool, true, false, not, ◌&&◌, ◌||◌, Option, none, some, List, [], ◌∷◌, ◌++◌, ltb, ◌==◌,
  if◌then◌else◌, any, Text, codes, is_space, is_digit, lower, strip_left, is_empty, text_eq, after,
}
use Patterns.{ClaimKey, grace_period_days, callback_hours, find_claim}

pub data DocumentStatus : Type 0 where
  active superseded draft archived unknown : DocumentStatus

pub data ConflictResolutionStatus : Type 0 where
  not_applicable resolved unresolved : ConflictResolutionStatus

pub data CorrectionAction : Type 0 where
  no_action query_rewrite query_decomposition broaden_retrieval metadata_filter : CorrectionAction
  conflict_resolution ask_clarification abstain : CorrectionAction

pub record Chunk : Type 0 where
  pub chunk_id : String
  pub document_id : String
  pub title : Text
  pub text : Text
  pub version : Option ℕ
  pub effective_date : Option ℕ
  pub status : DocumentStatus
  pub domain : Option String

pub record ConflictItem : Type 0 where
  pub claim_key : ClaimKey
  pub document_id : String
  pub chunk_id : String
  pub value : Text
  pub version : Option ℕ
  pub effective_date : Option ℕ
  pub status : DocumentStatus

pub record ConflictAnalysis : Type 0 where
  pub conflict_detected : Bool
  pub conflicting_claims : List ConflictItem
  pub resolution_status : ConflictResolutionStatus
  pub preferred_document_id : Option String
  pub resolution_reason : Option String
  pub recommended_action : CorrectionAction

abbrev pub same_key : ClaimKey → ClaimKey → Bool
same_key grace_period_days grace_period_days = true
same_key callback_hours callback_hours = true
same_key _ _ = false

-- `claims[key].append(item)`: the keys keep the order in which they were first used.
add_claim :
    ClaimKey
    → ConflictItem
    → List (ClaimKey × List ConflictItem)
    → List (ClaimKey × List ConflictItem)
add_claim key_ item [] = (key_, item ∷ []) ∷ []
add_claim key_ item ((k, items) ∷ rest) =
    if same_key k key_
    then (k, items ++ (item ∷ [])) ∷ rest
    else (k, items) ∷ add_claim key_ item rest

abbrev item_of : ClaimKey → Chunk → Text → ConflictItem
item_of key_ c value = record {
  claim_key = key_;
  document_id = c.document_id;
  chunk_id = c.chunk_id;
  value = value;
  version = c.version;
  effective_date = c.effective_date;
  status = c.status;
}

claim_of :
    ClaimKey → Chunk → List (ClaimKey × List ConflictItem) → List (ClaimKey × List ConflictItem)
unfolding add_claim find_claim
claim_of key_ c claims = elim (find_claim key_ c.text) [
  | none ↦ claims
  | some value ↦ add_claim key_ (item_of key_ c value) claims
]

unfoldable pub collect :
    List Chunk → List (ClaimKey × List ConflictItem) → List (ClaimKey × List ConflictItem)
unfolding claim_of
collect [] claims = claims
collect (c ∷ chunks) claims =
    collect chunks (claim_of callback_hours c (claim_of grace_period_days c claims))

-- `len({x.value for x in items}) > 1`: some value is not the first one.
abbrev disagree : List ConflictItem → Bool
disagree [] = false
disagree (x ∷ xs) = any (λ y. not (text_eq y.value x.value)) xs

unfoldable pub conflicting : List (ClaimKey × List ConflictItem) → List ConflictItem
conflicting [] = []
conflicting ((k, items) ∷ rest) =
    let others = conflicting rest in if disagree items then items ++ others else others

abbrev pub is_active : ConflictItem → Bool
is_active x = elim x.status [ active ↦ true | _ ↦ false ]

abbrev pub is_superseded : ConflictItem → Bool
is_superseded x = elim x.status [ superseded ↦ true | _ ↦ false ]

unfoldable pub items_where : (ConflictItem → Bool) → List ConflictItem → List ConflictItem
items_where test [] = []
items_where test (x ∷ xs) = let rest = items_where test xs in if test x then x ∷ rest else rest

-- `x.effective_date or date.min`
abbrev pub date_of : ConflictItem → ℕ
date_of x = elim x.effective_date [ none ↦ 1 | some d ↦ d ]

-- `x.version or 0`
abbrev version_of : ConflictItem → ℕ
version_of x = elim x.version [ none ↦ 0 | some v ↦ v ]

-- The sort key of `x` is less than the one of `y`.
abbrev pub older : ConflictItem → ConflictItem → Bool
older x y =
    ltb (date_of x) (date_of y) || ((date_of x == date_of y) && ltb (version_of x) (version_of y))

-- `sorted(…, reverse=True)`, which keeps the order of equals.
unfoldable pub insert_latest_item : ConflictItem → List ConflictItem → List ConflictItem
insert_latest_item x [] = x ∷ []
insert_latest_item x (y ∷ ys) =
    let rest = insert_latest_item x ys in if older x y then y ∷ rest else x ∷ y ∷ ys

unfoldable pub latest_first : List ConflictItem → List ConflictItem
unfolding insert_latest_item
latest_first [] = []
latest_first (x ∷ xs) = insert_latest_item x (latest_first xs)

abbrev same_date : Option ℕ → Option ℕ → Bool
same_date none none = true
same_date (some d) (some e) = d == e
same_date _ _ = false

abbrev no_conflict : ConflictAnalysis
no_conflict = record {
  conflict_detected = false;
  conflicting_claims = [];
  resolution_status = not_applicable;
  preferred_document_id = none;
  resolution_reason = none;
  recommended_action = no_action;
}

abbrev prefer : ConflictItem → String → List ConflictItem → ConflictAnalysis
prefer x reason items = record {
  conflict_detected = true;
  conflicting_claims = items;
  resolution_status = resolved;
  preferred_document_id = some x.document_id;
  resolution_reason = some reason;
  recommended_action = conflict_resolution;
}

abbrev cannot_resolve : List ConflictItem → ConflictAnalysis
cannot_resolve items = record {
  conflict_detected = true;
  conflicting_claims = items;
  resolution_status = unresolved;
  preferred_document_id = none;
  resolution_reason = some "Conflicting evidence could not be resolved safely from metadata.";
  recommended_action = abstain;
}

-- The two latest of the active items, by their dates.
abbrev pub prefer_latest : List ConflictItem → List ConflictItem → ConflictAnalysis
prefer_latest (x ∷ y ∷ rest) items =
    if not (same_date x.effective_date y.effective_date)
    then prefer x "Preferred the active source with the latest effective date." items
    else cannot_resolve items
prefer_latest _ items = cannot_resolve items

-- `len(active) == 1 and superseded`, and the cases after it.
abbrev pub resolve_among :
    List ConflictItem → List ConflictItem → List ConflictItem → ConflictAnalysis
resolve_among (x ∷ []) (old ∷ olds) items =
    prefer x "One conflicting source is active while the other is superseded." items
resolve_among actives olds items = prefer_latest (latest_first actives) items

unfoldable pub resolve : List ConflictItem → ConflictAnalysis
unfolding items_where latest_first
resolve [] = no_conflict
resolve (x ∷ xs) =
    resolve_among (items_where is_active (x ∷ xs)) (items_where is_superseded (x ∷ xs)) (x ∷ xs)

unfoldable pub detect : List Chunk → ConflictAnalysis
unfolding collect conflicting resolve
detect chunks = resolve (conflicting (collect chunks []))
