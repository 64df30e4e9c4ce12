-- ===== src/Voice/Idempotency/Hits.antt =====
-- voice/idempotency.py: a hit is the last response remembered under the key.
use bfsi_voice_agent.Prelude.{
  subst, ℕ, ◌≡◌, ◌≤◌, refl, ap, sym, ◌∙◌, true, false, ◌&&◌, Option, none, some, List, [], ◌∷◌,
  String, if◌then◌else◌, Text, text_eq, text_eq_refl, eq_of_text_eq, Bool-cases, inl, inr, arith,
  ltb, ◌-◌, max, Option-cases,
}
use bfsi_voice_agent.Voice.Idempotency.{
  Entry, SessionWriteIdempotency, DuplicateHit, new_guard, find_record, put_record, drop_record,
  check, check_key, remember_success, candidate_key, key_or, named, name_of,
}

-- Two texts are not both a third one and different.
text_eq_other : (i j k : Text) → text_eq i j ≡ false → text_eq i k ≡ true → text_eq j k ≡ false
text_eq_other i j k apart h = elim (Bool-cases (text_eq j k)) [
  | inr e ↦ e
  | inl e ↦
      let one : i ≡ k = eq_of_text_eq i k h in
      let two : j ≡ k = eq_of_text_eq j k e in
      let same : i ≡ j = one ∙ sym two in
      let bad : text_eq i j ≡ true = rw same (text_eq_refl j) in cc
]

find_record-put_record :
    (j k : Text) (e : Entry) (rs : List (Text × Entry))
    → find_record k (put_record j e rs) ≡ (if text_eq j k then some e else find_record k rs)
unfolding find_record put_record
find_record-put_record j k e [] = refl
find_record-put_record j k e ((i, old) ∷ rs) = elim (Bool-cases (text_eq i j)) [
  | inl same ↦
      let eq : i ≡ j = eq_of_text_eq i j same in ground (arith, same, ap (λ x. text_eq x k) eq)
  | inr apart ↦ elim (Bool-cases (text_eq i k)) [
    | inl hit ↦ ground (arith, apart, hit, text_eq_other i j k apart hit)
    | inr miss ↦ ground (arith, apart, miss, find_record-put_record j k e rs)
  ]
]

find_record-drop_record :
    (j k : Text) (rs : List (Text × Entry))
    → find_record k (drop_record j rs) ≡ (if text_eq j k then none else find_record k rs)
unfolding find_record drop_record
find_record-drop_record j k [] = ground arith
find_record-drop_record j k ((i, e) ∷ rs) = elim (Bool-cases (text_eq i j)) [
  | inl same ↦
      let eq : i ≡ j = eq_of_text_eq i j same in
      ground (arith, same, ap (λ x. text_eq x k) eq, find_record-drop_record j k rs)
  | inr apart ↦ elim (Bool-cases (text_eq i k)) [
    | inl hit ↦ ground (arith, apart, hit, text_eq_other i j k apart hit)
    | inr miss ↦ ground (arith, apart, miss, find_record-drop_record j k rs)
  ]
]

-- A call of the guard and its time.
pub data GuardCall : Type 0 where
  remembers : ℕ → Text → Option String → Text → GuardCall
  looks : ℕ → Text → GuardCall

abbrev time_of : GuardCall → ℕ
time_of (remembers at text tool response) = at
time_of (looks at text) = at

abbrev call : GuardCall → SessionWriteIdempotency → SessionWriteIdempotency
call (remembers at text tool response) g = remember_success at text tool response g
call (looks at text) g = (check at text g).1

-- A new guard after calls, the latest first.
abbrev pub guard_after : ℕ → List GuardCall → SessionWriteIdempotency
guard_after ttl [] = new_guard ttl
guard_after ttl (c ∷ earlier) = call c (guard_after ttl earlier)

-- The calls, latest first, are made in the order of their times, the last not after `now`.
abbrev pub Timely : ℕ → List GuardCall → Type 0
Timely now [] = Unit
Timely now (c ∷ earlier) = (time_of c ≤ now) × Timely (time_of c) earlier

-- What was last remembered under a key.
abbrev last_remembered : Text → List GuardCall → Option Entry
last_remembered k [] = none
last_remembered k (looks at text ∷ earlier) = last_remembered k earlier
last_remembered k (remembers at text tool response ∷ earlier) =
    let before = last_remembered k earlier in
    let key = key_or text (name_of tool) (candidate_key text) in
    if named tool && text_eq key k
    then some (record { created_at = at; response = response })
    else before

-- An entry that is not too old.
abbrev still_fresh : ℕ → ℕ → Option Entry → Option Entry
still_fresh ttl now none = none
still_fresh ttl now (some e) = if ltb ttl (now - e.created_at) then none else some e

abbrev hit_of : Text → Option Entry → Option DuplicateHit
hit_of k none = none
hit_of k (some e) = some (record { key = k; grounded_response = e.response })

-- The hit for a key: what was last remembered under it, while it is fresh.
abbrev hit_for : ℕ → ℕ → List GuardCall → Option Text → Option DuplicateHit
hit_for ttl now earlier none = none
hit_for ttl now earlier (some k) = hit_of k (still_fresh ttl now (last_remembered k earlier))

-- `check` keeps the time to live, and whatever is still fresh later.
abbrev Tolerates : ℕ → Text → SessionWriteIdempotency → SessionWriteIdempotency → Type 0
Tolerates now k g g' =
    (g'.ttl ≡ g.ttl)
    × ((later : ℕ)
        → now ≤ later
        → still_fresh g.ttl later (find_record k g'.records)
          ≡ still_fresh g.ttl later (find_record k g.records))

still_fresh-expired :
    (ttl now later : ℕ) (e : Entry)
    → now ≤ later
    → ltb ttl (now - e.created_at) ≡ true
    → still_fresh ttl later (some e) ≡ none
still_fresh-expired ttl now later e le h = ground arith

drop-fresh :
    (now later : ℕ) (j k : Text) (g : SessionWriteIdempotency) (e : Entry)
    → find_record j g.records ≡ some e
    → now ≤ later
    → ltb g.ttl (now - e.created_at) ≡ true
    → still_fresh g.ttl later (find_record k (drop_record j g.records))
      ≡ still_fresh g.ttl later (find_record k g.records)
drop-fresh now later j k g e f le old = elim (Bool-cases (text_eq j k)) [
  | inr apart ↦ rw (find_record-drop_record j k g.records, apart) refl
  | inl same ↦
      let there : find_record k g.records ≡ some e = rw (← eq_of_text_eq j k same) f in
      rw (find_record-drop_record j k g.records, same, there)
        (sym (still_fresh-expired g.ttl now later e le old))
]

check_key-Tolerates :
    (now : ℕ) (j k : Text) (g : SessionWriteIdempotency) → Tolerates now k g (check_key now j g).1
unfolding check_key
check_key-Tolerates now j k g = elim (Option-cases (find_record j g.records)) [
  | inl f ↦ rw (check_key, f) (refl, λ later le. refl)
  | inr (e, f) ↦ elim (Bool-cases (ltb g.ttl (now - e.created_at))) [
    | inr new ↦ rw (check_key, f, new) (refl, λ later le. refl)
    | inl old ↦ rw (check_key, f, old) (refl, λ later le. drop-fresh now later j k g e f le old)
  ]
]

check-Tolerates :
    (now : ℕ) (text k : Text) (g : SessionWriteIdempotency) → Tolerates now k g (check now text g).1
unfolding check
check-Tolerates now text k g = elim (Option-cases (candidate_key text)) [
  | inl e ↦ rw (check, e) (refl, λ later le. refl)
  | inr (j, e) ↦ rw (check, e) (check_key-Tolerates now j k g)
]

ttl-call : (c : GuardCall) (g : SessionWriteIdempotency) → (call c g).ttl ≡ g.ttl
unfolding remember_success
ttl-call (remembers now text tool response) g = ground arith
ttl-call (looks now text) g = (check-Tolerates now text [] g).0

ttl-guard_after : (ttl : ℕ) (cs : List GuardCall) → (guard_after ttl cs).ttl ≡ max 5000000 ttl
ttl-guard_after ttl [] = refl
ttl-guard_after ttl (c ∷ cs) = ttl-call c (guard_after ttl cs) ∙ ttl-guard_after ttl cs

Timely-le : (now later : ℕ) (cs : List GuardCall) → now ≤ later → Timely now cs → Timely later cs
Timely-le now later [] le h = tt
Timely-le now later (c ∷ cs) le h = (omega (arith, h.0), h.1)

find_record-remember_success :
    (now : ℕ) (text k : Text) (tool : Option String) (response : Text) (g : SessionWriteIdempotency)
    → let key = key_or text (name_of tool) (candidate_key text) in
      find_record k (remember_success now text tool response g).records ≡ (
        if named tool && text_eq key k
        then some (record { created_at = now; response = response })
        else find_record k g.records)
unfolding remember_success
find_record-remember_success now text k tool response g =
    let key = key_or text (name_of tool) (candidate_key text) in
    let entry : Entry = record { created_at = now; response = response } in
    elim (Bool-cases (named tool)) [
      | inl e ↦ rw (remember_success, e) (find_record-put_record key k entry g.records)
      | inr e ↦ rw (remember_success, e) refl
    ]

last_remembered-fresh :
    (ttl now : ℕ) (k : Text) (cs : List GuardCall)
    → Timely now cs
    → still_fresh (max 5000000 ttl) now (find_record k (guard_after ttl cs).records)
      ≡ still_fresh (max 5000000 ttl) now (last_remembered k cs)
unfolding find_record
last_remembered-fresh ttl now k [] h = refl
last_remembered-fresh ttl now k (looks at text ∷ cs) h =
    let g = guard_after ttl cs in
    let kept : still_fresh (max 5000000 ttl) now (find_record k (check at text g).1.records)
        ≡ still_fresh (max 5000000 ttl) now (find_record k g.records) =
      subst
        (λ w.
          still_fresh w now (find_record k (check at text g).1.records)
          ≡ still_fresh w now (find_record k g.records))
        (ttl-guard_after ttl cs) ((check-Tolerates at text k g).1 now h.0) in
    kept ∙ last_remembered-fresh ttl now k cs (Timely-le at now cs h.0 h.1)
last_remembered-fresh ttl now k (remembers at text tool response ∷ cs) h =
    let key = key_or text (name_of tool) (candidate_key text) in
    let rest = last_remembered-fresh ttl now k cs (Timely-le at now cs h.0 h.1) in
    rw (find_record-remember_success at text k tool response (guard_after ttl cs))
      (elim (Bool-cases (named tool && text_eq key k)) [ inl e ↦ rw e refl | inr e ↦ rw e rest ])

check_key-hit_of :
    (now : ℕ) (k : Text) (g : SessionWriteIdempotency)
    → (check_key now k g).0 ≡ hit_of k (still_fresh g.ttl now (find_record k g.records))
unfolding check_key
check_key-hit_of now k g = elim (Option-cases (find_record k g.records)) [
  | inl f ↦ rw (check_key, f) refl
  | inr (e, f) ↦ elim (Bool-cases (ltb g.ttl (now - e.created_at))) [
    | inl old ↦ rw (check_key, f, old) refl
    | inr new ↦ rw (check_key, f, new) refl
  ]
]

-- What a caller is told: after any calls of a new guard, made in the order of their times, `check`
-- finds the utterance a repeat exactly when it has a key, a write tool's success was remembered
-- under this key, and the last time this happened is at most the time to live ago, which is at
-- least five seconds; the hit then carries the response of that last time.
pub check-Refines :
    (ttl now : ℕ) (text : Text) (cs : List GuardCall)
    → Timely now cs
    → (check now text (guard_after ttl cs)).0
      ≡ hit_for (max 5000000 ttl) now cs (candidate_key text)
unfolding check
check-Refines ttl now text cs h = elim (Option-cases (candidate_key text)) [
  | inl e ↦ rw (check, e) refl
  | inr (k, e) ↦
      let g = guard_after ttl cs in
      let fresh = last_remembered-fresh ttl now k cs h in
      let width = ttl-guard_after ttl cs in
      rw (check, e)
        (check_key-hit_of now k g
          ∙ ap (λ w. hit_of k (still_fresh w now (find_record k g.records))) width
          ∙ ap (hit_of k) fresh)
]
