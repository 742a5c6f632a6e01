-- ===== src/Sqlite/Retention.antt =====
-- What DeleteOldest of internal/repository/ping_repo.go leaves of the pings.
use cron_mon.Base.{
  ℕ, zero, suc, ◌≡◌, refl, sym, ap, ◌∙◌, inl, inr, Bool, true, false, List, [], ◌∷◌, take, All,
  All-map, arith, ◌==◌, if◌then◌else◌, Bool-cases,
}
use cron_mon.Base.Sorting.{insert_by, sort_by, IsSortedBy, sort_by-IsSortedBy}
use cron_mon.Base.Text.{Text, text_eq, text_eq_iff}
use cron_mon.Sqlite.{PingRow}
use cron_mon.Sqlite.Pings.{newer, newest, rows_of, among, left_over, pruned}

newer_total : (a b : PingRow) → newer a b ≡ false → newer b a ≡ true
newer_total a b h = ground arith

newer_trans : (a b c : PingRow) → newer a b ≡ true → newer b c ≡ true → newer a c ≡ true
newer_trans a b c h k = ground arith

-- The elements that satisfy a test.
abbrev keep {ℓ} : {A : Type ℓ} → (A → Bool) → List A → List A
keep q [] = []
keep q (a ∷ l) = let rest = keep q l in if q a then a ∷ rest else rest

keep-none {ℓ} : {A : Type ℓ} (q : A → Bool) (l : List A) → All (λ a. q a ≡ false) l → keep q l ≡ []
keep-none q [] h = refl
keep-none q (a ∷ l) h = rw h.0 (keep-none q l h.1)

-- A stable order: selecting and sorting commute.
module _ {ℓ} {A : Type ℓ} (le : A → A → Bool) (total : (a b : A) → le a b ≡ false → le b a ≡ true)
    (trans : (a b c : A) → le a b ≡ true → le b c ≡ true → le a c ≡ true) (q : A → Bool) where
  insert_by-first : (a : A) (l : List A) → All (λ b. le a b ≡ true) l → insert_by le a l ≡ a ∷ l
  unfolding insert_by
  insert_by-first a [] h = refl
  insert_by-first a (b ∷ l) h = rw h.0 refl

  All-keep {κ} : (P : A → Type κ) (l : List A) → All P l → All P (keep q l)
  All-keep P [] h = tt
  All-keep P (a ∷ l) h = elim (Bool-cases (q a)) [
    | inl e ↦ rw e (h.0, All-keep P l h.1)
    | inr e ↦ rw e (All-keep P l h.1)
  ]

  keep-insert_by :
      (a : A) (l : List A)
      → IsSortedBy le l
      → keep q (insert_by le a l) ≡ (if q a then insert_by le a (keep q l) else keep q l)
  unfolding insert_by
  keep-insert_by a [] s = refl
  keep-insert_by a (b ∷ l) s = elim (Bool-cases (le a b)) [
    | inl e ↦ elim (Bool-cases (q a)) [
      | inl f ↦
          rw (e, f)
            (sym (
              insert_by-first a (keep q (b ∷ l))
                (All-keep _ (b ∷ l) (e, All-map l (λ c h. trans a b c e h) s.0))))
      | inr f ↦ rw (e, f) refl
    ]
    | inr e ↦ elim (Bool-cases (q a)) [
      | inl f ↦ elim (Bool-cases (q b)) [
        | inl g ↦ rw (e, f, g, keep-insert_by a l s.1, f, e) refl
        | inr g ↦ rw (e, f, g, keep-insert_by a l s.1, f) refl
      ]
      | inr f ↦ rw (e, f, keep-insert_by a l s.1, f) refl
    ]
  ]

  keep-sort_by : (l : List A) → keep q (sort_by le l) ≡ sort_by le (keep q l)
  unfolding sort_by
  keep-sort_by [] = refl
  keep-sort_by (a ∷ l) =
      keep-insert_by a (sort_by le l) (sort_by-IsSortedBy le total trans l)
      ∙ rw (keep-sort_by l) (elim (Bool-cases (q a)) [ inl e ↦ rw e refl | inr e ↦ rw e refl ])

-- No two rows have the same key: id is PRIMARY KEY.
abbrev pub DistinctIds : List PingRow → Type 0
DistinctIds [] = Unit {0}
DistinctIds (p ∷ ps) = All (λ r. (r.id == p.id) ≡ false) ps × DistinctIds ps

keep-cong {ℓ} :
    {A : Type ℓ} (q r : A → Bool) (l : List A) → All (λ a. q a ≡ r a) l → keep q l ≡ keep r l
keep-cong q r [] h = refl
keep-cong q r (a ∷ l) h = rw (h.0, keep-cong q r l h.1) refl

-- The rows whose keys stand among the first `n` are the first `n`.
keep-take :
    (n : ℕ) (ps : List PingRow) → DistinctIds ps → keep (λ p. among p.id (take n ps)) ps ≡ take n ps
unfolding among
keep-take zero ps d = keep-none _ ps (All-false ps)
  where
    All-false : (ps : List PingRow) → All (λ p. ◌≡◌ {A = Bool} false false) ps
    All-false [] = tt
    All-false (p ∷ ps) = (refl, All-false ps)
keep-take (suc n) [] d = refl
keep-take (suc n) (p ∷ ps) d =
    let same : (p.id == p.id) ≡ true = ground arith in
    rw same (ap (p ∷◌) (keep-cong _ _ ps (All-map ps (λ r h. rw h refl) d.0) ∙ keep-take n ps d.1))

All-rows_of {ℓ} :
    (P : PingRow → Type ℓ) (id : Text) (ps : List PingRow) → All P ps → All P (rows_of id ps)
unfolding rows_of
All-rows_of P id [] h = tt
All-rows_of P id (p ∷ ps) h = elim (Bool-cases (text_eq p.check_id id)) [
  | inl e ↦ rw e (h.0, All-rows_of P id ps h.1)
  | inr e ↦ rw e (All-rows_of P id ps h.1)
]

DistinctIds-rows_of : (id : Text) (ps : List PingRow) → DistinctIds ps → DistinctIds (rows_of id ps)
unfolding rows_of
DistinctIds-rows_of id [] d = tt
DistinctIds-rows_of id (p ∷ ps) d = elim (Bool-cases (text_eq p.check_id id)) [
  | inl e ↦ rw e (All-rows_of _ id ps d.0, DistinctIds-rows_of id ps d.1)
  | inr e ↦ rw e (DistinctIds-rows_of id ps d.1)
]

All-insert {ℓ} :
    (P : PingRow → Type ℓ) (a : PingRow) (l : List PingRow)
    → P a
    → All P l
    → All P (insert_by newer a l)
unfolding insert_by
All-insert P a [] p h = (p, tt)
All-insert P a (b ∷ l) p h = elim (Bool-cases (newer a b)) [
  | inl e ↦ rw e (p, h)
  | inr e ↦ rw e (h.0, All-insert P a l p h.1)
]

All-sort {ℓ} : (P : PingRow → Type ℓ) (l : List PingRow) → All P l → All P (sort_by newer l)
unfolding sort_by
All-sort P [] h = tt
All-sort P (a ∷ l) h = All-insert P a (sort_by newer l) h.0 (All-sort P l h.1)

DistinctIds-insert :
    (a : PingRow) (l : List PingRow)
    → All (λ r. (r.id == a.id) ≡ false) l
    → DistinctIds l
    → DistinctIds (insert_by newer a l)
unfolding insert_by
DistinctIds-insert a [] h d = (tt, tt)
DistinctIds-insert a (b ∷ l) h d = elim (Bool-cases (newer a b)) [
  | inl e ↦ rw e (h, d)
  | inr e ↦
      let other : (a.id == b.id) ≡ false = ground (arith, h.0) in
      rw e (All-insert _ a l other d.0, DistinctIds-insert a l h.1 d.1)
]

DistinctIds-sort : (l : List PingRow) → DistinctIds l → DistinctIds (sort_by newer l)
unfolding sort_by
DistinctIds-sort [] d = tt
DistinctIds-sort (a ∷ l) d =
    DistinctIds-insert a (sort_by newer l) (All-sort _ l d.0) (DistinctIds-sort l d.1)

rows_of-left_over :
    (id : Text) (kept ps : List PingRow)
    → rows_of id (left_over id kept ps) ≡ keep (λ p. among p.id kept) (rows_of id ps)
unfolding rows_of left_over
rows_of-left_over id kept [] = refl
rows_of-left_over id kept (p ∷ ps) = elim (Bool-cases (text_eq p.check_id id)) [
  | inl e ↦ elim (Bool-cases (among p.id kept)) [
    | inl f ↦ rw (e, f, e, rows_of-left_over id kept ps) refl
    | inr f ↦ rw (e, f, rows_of-left_over id kept ps) refl
  ]
  | inr e ↦ rw (e, e, rows_of-left_over id kept ps) refl
]

rows_of-left_over-other :
    (id other : Text) (kept ps : List PingRow)
    → text_eq id other ≡ false
    → rows_of other (left_over id kept ps) ≡ rows_of other ps
unfolding rows_of left_over
rows_of-left_over-other id other kept [] h = refl
rows_of-left_over-other id other kept (p ∷ ps) h = ground (
  arith,
  rows_of-left_over-other id other kept ps h,
  text_eq_iff p.check_id id,
  text_eq_iff p.check_id other,
  text_eq_iff id other,
)

-- Where no two pings have one key, DeleteOldest leaves of a check's pings the first `keep_n` of
-- their listing, newest first, and leaves the listing of every other check as it was.
pub newest-pruned :
    (id other : Text) (keep_n : ℕ) (ps : List PingRow)
    → DistinctIds ps
    → text_eq id other ≡ false
    → (newest id (pruned id keep_n ps) ≡ take keep_n (newest id ps))
      × (newest other (pruned id keep_n ps) ≡ newest other ps)
unfolding newest pruned
newest-pruned id other keep_n ps d h = (
  ap (sort_by newer) (rows_of-left_over id _ ps)
      ∙ sym (keep-sort_by newer newer_total newer_trans _ (rows_of id ps))
      ∙ keep-take keep_n (newest id ps) (DistinctIds-sort _ (DistinctIds-rows_of id ps d)),
  ap (sort_by newer) (rows_of-left_over-other id other _ ps h),
)
