-- ===== src/Migrations/Again.antt =====
-- What the next run of Migrate in internal/db/db.go does.
use cron_mon.Base.{
  ◌≡◌, ◌∙◌, sym, ap, refl, inl, inr, Bool, true, false, none, some, List, [], ◌∷◌, ◌++◌, All, arith,
  Bool-cases,
}
use mathlib.Core.List.{append-nil, append_assoc}
use cron_mon.Base.Sorting.{sort_by}
use cron_mon.Base.Text.{Text, text_eq, text_eq_refl}
use cron_mon.Migrations.{Entry, Driver, Database, by_name, is_migration, recorded, migrate}
use cron_mon.Migrations.Steps.{needed}
use cron_mon.Migrations.Runs.{replay, pending, migrate-Ran}

module _ {Schema : Type 0} (driver : Driver Schema) where
  recorded-append :
      (v : Text) (vs ws : List Text) → recorded v vs ≡ true → recorded v (vs ++ ws) ≡ true
  unfolding recorded
  recorded-append v [] ws h = cc
  recorded-append v (w ∷ vs) ws h = elim (Bool-cases (text_eq w v)) [
    | inl e ↦ rw e refl
    | inr e ↦ rw e (recorded-append v vs ws (ground arith))
  ]

  recorded_last : (v : Text) (vs : List Text) → recorded v (vs ++ v ∷ []) ≡ true
  unfolding recorded
  recorded_last v [] = rw (text_eq_refl v) refl
  recorded_last v (w ∷ vs) = rw (recorded_last v vs) (ground arith)

  unneeded-append :
      (e : Entry) (vs ws : List Text)
      → needed driver vs e ≡ false
      → needed driver (vs ++ ws) e ≡ false
  unneeded-append e vs ws h = elim (Bool-cases (recorded e.name vs)) [
    | inl p ↦ rw (recorded-append e.name vs ws p) (ground arith)
    | inr p ↦ let off : is_migration e ≡ false = ground arith in rw off refl
  ]

  -- Nothing is pending any more once the pending migrations are recorded.
  unneeded_afterwards :
      (es : List Entry) (vs final : List Text)
      → final ≡ vs ++ pending driver vs es
      → All (λ e. needed driver final e ≡ false) es
  unfolding pending
  unneeded_afterwards [] vs final h = tt
  unneeded_afterwards (e ∷ es) vs final h = elim (Bool-cases (needed driver vs e)) [
    | inl p ↦
        let vs' = vs ++ e.name ∷ [] in
        let on : pending driver vs (e ∷ es) ≡ e.name ∷ pending driver vs' es = rw p refl in
        let h' : final ≡ vs' ++ pending driver vs' es =
          h
          ∙ ap (λ ws. vs ++ ws) on
          ∙ sym (append_assoc vs (e.name ∷ []) (pending driver vs' es)) in
        let known : recorded e.name final ≡ true =
          rw h' (recorded-append e.name vs' (pending driver vs' es) (recorded_last e.name vs)) in
        (ground (arith, known), unneeded_afterwards es vs' final h')
    | inr p ↦
        let off : pending driver vs (e ∷ es) ≡ pending driver vs es = rw p refl in
        let h' : final ≡ vs ++ pending driver vs es = h ∙ ap (λ ws. vs ++ ws) off in
        let passed_over : needed driver final e ≡ false =
          rw h' (unneeded-append e vs (pending driver vs es) p) in
        (passed_over, unneeded_afterwards es vs final h')
  ]

  pending-settled :
      (es : List Entry) (vs : List Text)
      → All (λ e. needed driver vs e ≡ false) es
      → pending driver vs es ≡ []
  unfolding pending
  pending-settled [] vs h = refl
  pending-settled (e ∷ es) vs h = rw (h.0) (pending-settled es vs h.1)

  append-empty : (vs ws : List Text) → vs ++ ws ≡ [] → vs ≡ []
  append-empty [] ws h = refl
  append-empty (v ∷ vs) ws h = cc

  replay-empty :
      (vs : List Text) (schema schema' : Schema)
      → vs ≡ []
      → replay driver vs schema ≡ some schema'
      → schema' ≡ schema
  unfolding replay
  replay-empty [] schema schema' e h = cc
  replay-empty (v ∷ vs) schema schema' e h = cc

  -- After a run of Migrate without an error every migration is recorded, and another run,
  -- whichever calls of the driver fail in it, applies and records nothing.
  pub migrate-migrate :
      (es : List Entry) (db : Database Schema) (faults : List Bool)
      → driver.entries ≡ some es
      → (migrate driver db).0 ≡ none
      → let db' = record (migrate driver db).1 { faults = faults } in
        All (λ e. needed driver db'.versions e ≡ false) (sort_by by_name es)
        × ((migrate driver db').1.versions ≡ db'.versions)
        × ((migrate driver db').1.schema ≡ db'.schema)
  unfolding replay
  migrate-migrate es db faults listed fine =
      let db' = record (migrate driver db).1 { faults = faults } in
      let first = (migrate-Ran driver es db listed).1 in
      let next = (migrate-Ran driver es db' listed).1 in
      let all : first.left ≡ [] = elim first.outcome [ inl o ↦ o.1 | inr o ↦ cc ] in
      let final : db'.versions ≡ db.versions ++ pending driver db.versions (sort_by by_name es) =
        first.versions
        ∙ ap (λ ws. db.versions ++ ws)
            (sym (first.ordered ∙ ap (λ ws. first.done ++ ws) all ∙ append-nil first.done)) in
      let settled = unneeded_afterwards (sort_by by_name es) db.versions db'.versions final in
      let idle : next.done ++ next.left ≡ [] =
        sym next.ordered ∙ pending-settled (sort_by by_name es) db'.versions settled in
      let none_done : next.done ≡ [] = append-empty next.done next.left idle in
      (
        settled,
        next.versions ∙ ap (λ ws. db'.versions ++ ws) none_done ∙ append-nil db'.versions,
        replay-empty next.done db'.schema _ none_done next.schema,
      )
