-- ===== src/Rag/ConflictDetector/Preferred.antt =====
-- rag/conflict_detector.py: which source is preferred.
use bfsi_voice_agent.Prelude.{
  ◌≤◌, ◌≡◌, ◌⊎◌, inl, inr, refl, Bool, true, false, some, List, [], ◌∷◌, arith, All, In, Bool-cases,
}
use bfsi_voice_agent.Rag.ConflictDetector.{
  ConflictItem, ConflictAnalysis, Chunk, resolved, is_active, is_superseded, items_where, date_of,
  older, insert_latest_item, latest_first, resolve, resolve_among, prefer_latest, detect,
  conflicting, collect,
}

-- No item of the list has a later date.
abbrev pub NoneLater : ConflictItem → List ConflictItem → Type 0
NoneLater x xs = All (λ y. date_of y ≤ date_of x) xs

abbrev HeadLatest : List ConflictItem → Type 0
HeadLatest [] = Unit
HeadLatest (x ∷ xs) = NoneLater x xs

NoneLater-trans :
    (x y : ConflictItem) (xs : List ConflictItem)
    → date_of y ≤ date_of x
    → NoneLater y xs
    → NoneLater x xs
NoneLater-trans x y [] le h = tt
NoneLater-trans x y (z ∷ zs) le h = (omega (arith, h.0), NoneLater-trans x y zs le h.1)

NoneLater-insert :
    (x y : ConflictItem) (xs : List ConflictItem)
    → date_of y ≤ date_of x
    → NoneLater x xs
    → NoneLater x (insert_latest_item y xs)
unfolding insert_latest_item
NoneLater-insert x y [] le h = (le, tt)
NoneLater-insert x y (z ∷ zs) le h = elim (Bool-cases (older y z)) [
  | inl e ↦ rw e (h.0, NoneLater-insert x y zs le h.1)
  | inr e ↦ rw e (le, h)
]

older-le : (x y : ConflictItem) → older x y ≡ true → date_of x ≤ date_of y
older-le x y h = ground arith

not_older-le : (x y : ConflictItem) → older x y ≡ false → date_of y ≤ date_of x
not_older-le x y h = ground arith

HeadLatest-insert :
    (x : ConflictItem) (xs : List ConflictItem)
    → HeadLatest xs
    → HeadLatest (insert_latest_item x xs)
unfolding insert_latest_item
HeadLatest-insert x [] h = tt
HeadLatest-insert x (y ∷ ys) h = elim (Bool-cases (older x y)) [
  | inl e ↦ rw e (NoneLater-insert y x ys (older-le x y e) h)
  | inr e ↦ let le = not_older-le x y e in rw e (le, NoneLater-trans x y ys le h)
]

HeadLatest-latest_first : (xs : List ConflictItem) → HeadLatest (latest_first xs)
unfolding latest_first
HeadLatest-latest_first [] = tt
HeadLatest-latest_first (x ∷ xs) =
    HeadLatest-insert x (latest_first xs) (HeadLatest-latest_first xs)

In-insert :
    (z x : ConflictItem) (xs : List ConflictItem)
    → ((z ≡ x) ⊎ In z xs → In z (insert_latest_item x xs))
      × (In z (insert_latest_item x xs) → (z ≡ x) ⊎ In z xs)
unfolding insert_latest_item
In-insert z x [] = (λ h. h, λ h. h)
In-insert z x (y ∷ ys) = elim (Bool-cases (older x y)) [
  | inl e ↦
      let (there, back) = In-insert z x ys in
      rw e (
        λ h. elim h [
          | inl same ↦ inr (there (inl same))
          | inr (inl same) ↦ inl same
          | inr (inr later) ↦ inr (there (inr later))
        ],
        λ h. elim h [
          | inl same ↦ inr (inl same)
          | inr later ↦ elim (back later) [ inl same ↦ inl same | inr yet ↦ inr (inr yet) ]
        ],
      )
  | inr e ↦ rw e (λ h. h, λ h. h)
]

In-latest_first : (z : ConflictItem) (xs : List ConflictItem) → In z xs → In z (latest_first xs)
unfolding latest_first
In-latest_first z [] h = h
In-latest_first z (x ∷ xs) (inl same) = (In-insert z x (latest_first xs)).0 (inl same)
In-latest_first z (x ∷ xs) (inr later) =
    (In-insert z x (latest_first xs)).0 (inr (In-latest_first z xs later))

latest_first-In : (z : ConflictItem) (xs : List ConflictItem) → In z (latest_first xs) → In z xs
unfolding latest_first
latest_first-In z [] h = h
latest_first-In z (x ∷ xs) h = elim ((In-insert z x (latest_first xs)).1 h) [
  | inl same ↦ inl same
  | inr later ↦ inr (latest_first-In z xs later)
]

In-items_where :
    (test : ConflictItem → Bool) (z : ConflictItem) (xs : List ConflictItem)
    → In z xs
    → test z ≡ true
    → In z (items_where test xs)
unfolding items_where
In-items_where test z [] h t = h
In-items_where test z (x ∷ xs) (inl same) t =
    let tx : test x ≡ true = rw (← same) t in rw tx (inl same)
In-items_where test z (x ∷ xs) (inr later) t = elim (Bool-cases (test x)) [
  | inl e ↦ rw e (inr (In-items_where test z xs later t))
  | inr e ↦ rw e (In-items_where test z xs later t)
]

items_where-In :
    (test : ConflictItem → Bool) (z : ConflictItem) (xs : List ConflictItem)
    → In z (items_where test xs)
    → In z xs × (test z ≡ true)
unfolding items_where
items_where-In test z [] h = absurd h
items_where-In test z (x ∷ xs) h = elim (Bool-cases (test x)) [
  | inl e ↦ elim (rw e at h) [
    | inl same ↦ (inl same, rw same e)
    | inr later ↦ let (i, t) = items_where-In test z xs later in (inr i, t)
  ]
  | inr e ↦ let (i, t) = items_where-In test z xs (rw e at h) in (inr i, t)
]

NoneLater-In :
    (z x : ConflictItem) (xs : List ConflictItem) → NoneLater x xs → In z xs → date_of z ≤ date_of x
NoneLater-In z x [] h i = absurd i
NoneLater-In z x (y ∷ ys) h (inl same) = rw same h.0
NoneLater-In z x (y ∷ ys) h (inr later) = NoneLater-In z x ys h.1 later

-- An item that an analysis rests on: its document is the preferred one, and no active one is later.
abbrev pub Best : List ConflictItem → ConflictAnalysis → ConflictItem → Type 0
Best actives result x =
    In x actives
    × (result.preferred_document_id ≡ some x.document_id)
    × ((z : ConflictItem) → In z actives → date_of z ≤ date_of x)

prefer_latest-Best :
    (sorted items : List ConflictItem)
    → HeadLatest sorted
    → (prefer_latest sorted items).resolution_status ≡ resolved
    → (x : ConflictItem) × Best sorted (prefer_latest sorted items) x
prefer_latest-Best [] items h r = absurd (ground arith)
prefer_latest-Best (x ∷ []) items h r = absurd (ground arith)
prefer_latest-Best (x ∷ y ∷ rest) items h r =
    let latest : (z : ConflictItem) → In z (x ∷ y ∷ rest) → date_of z ≤ date_of x = λ z i. elim i [
      | inl same ↦ rw same (omega arith)
      | inr later ↦ NoneLater-In z x (y ∷ rest) h later
    ] in
    (x, (inl refl, ground arith, latest))

among_latest-Best :
    (actives items : List ConflictItem)
    → (prefer_latest (latest_first actives) items).resolution_status ≡ resolved
    → (x : ConflictItem) × Best actives (prefer_latest (latest_first actives) items) x
among_latest-Best actives items r =
    let (x, (i, e, latest)) =
      prefer_latest-Best (latest_first actives) items (HeadLatest-latest_first actives) r in
    (x, (latest_first-In x actives i, e, λ z j. latest z (In-latest_first z actives j)))

resolve_among-Best :
    (actives olds items : List ConflictItem)
    → (resolve_among actives olds items).resolution_status ≡ resolved
    → (x : ConflictItem) × Best actives (resolve_among actives olds items) x
resolve_among-Best [] olds items r = among_latest-Best [] items r
resolve_among-Best (x ∷ []) [] items r = among_latest-Best (x ∷ []) items r
resolve_among-Best (x ∷ []) (old ∷ olds) items r = (
  x,
  (inl refl, refl, λ z i. elim i [ inl same ↦ rw same (omega arith) | inr over ↦ absurd over ]),
)
resolve_among-Best (x ∷ y ∷ rest) olds items r = among_latest-Best (x ∷ y ∷ rest) items r

resolve_prefers :
    (items : List ConflictItem)
    → (resolve items).resolution_status ≡ resolved
    → (x : ConflictItem) × In x items
      × (is_active x ≡ true)
      × ((resolve items).preferred_document_id ≡ some x.document_id)
      × ((z : ConflictItem) → In z items → is_active z ≡ true → date_of z ≤ date_of x)
unfolding resolve
resolve_prefers [] r = absurd (ground arith)
resolve_prefers (y ∷ ys) r =
    let items = y ∷ ys in
    let actives = items_where is_active items in
    let (x, (i, e, latest)) =
      resolve_among-Best actives (items_where is_superseded items) items r in
    let (there, live) = items_where-In is_active x items i in
    (x, there, live, e, λ z j t. latest z (In-items_where is_active z items j t))

prefer_latest-claims :
    (sorted items : List ConflictItem) → (prefer_latest sorted items).conflicting_claims ≡ items
prefer_latest-claims [] items = refl
prefer_latest-claims (x ∷ []) items = refl
prefer_latest-claims (x ∷ y ∷ rest) items = ground arith

resolve_among-claims :
    (actives olds items : List ConflictItem)
    → (resolve_among actives olds items).conflicting_claims ≡ items
resolve_among-claims [] olds items = prefer_latest-claims (latest_first []) items
resolve_among-claims (x ∷ []) [] items = prefer_latest-claims (latest_first (x ∷ [])) items
resolve_among-claims (x ∷ []) (old ∷ olds) items = refl
resolve_among-claims (x ∷ y ∷ rest) olds items =
    prefer_latest-claims (latest_first (x ∷ y ∷ rest)) items

conflicting_claims-resolve :
    (items : List ConflictItem) → (resolve items).conflicting_claims ≡ items
unfolding resolve
conflicting_claims-resolve [] = refl
conflicting_claims-resolve (x ∷ xs) =
    resolve_among-claims (items_where is_active (x ∷ xs)) (items_where is_superseded (x ∷ xs))
      (x ∷ xs)

-- The preferred source is a live one: when the detector resolves a conflict, the document that it
-- prefers is the one of an active conflicting claim, and no active conflicting claim has a later
-- effective date.
pub detect_prefers_latest :
    (chunks : List Chunk)
    → (detect chunks).resolution_status ≡ resolved
    → let claims = (detect chunks).conflicting_claims in
      (x : ConflictItem) × In x claims
      × (is_active x ≡ true)
      × ((detect chunks).preferred_document_id ≡ some x.document_id)
      × ((z : ConflictItem) → In z claims → is_active z ≡ true → date_of z ≤ date_of x)
unfolding detect
detect_prefers_latest chunks r =
    let items = conflicting (collect chunks []) in
    rw (conflicting_claims-resolve items) (resolve_prefers items r)
