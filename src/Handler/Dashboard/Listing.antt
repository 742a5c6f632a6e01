-- ===== src/Handler/Dashboard/Listing.antt =====
-- The checks that HandleCheckList of internal/handler/dashboard.go lists.
use mathlib.Core.List.{Perm, perm_middle}
use mathlib.Core.List.Perm
use cron_mon.Base.{
  ℕ, suc, ◌≤◌, ◌≡◌, refl, ap, ◌∙◌, inl, inr, true, false, List, [], ◌∷◌, ◌++◌, All, All-map, arith,
  ◌==◌, Bool-cases, if◌then◌else◌,
}
use cron_mon.Base.Sorting.{IsSortedBy, All-sort_by, sort_by-perm, sort_by-IsSortedBy}
use cron_mon.Base.Text.{Text}
use cron_mon.Model.{Check, Status}
use cron_mon.Handler.Dashboard.{by_status, status_order, passes, filtered, listed}

-- What the loop over the checks leaves out.
left_out : Text → List Check → List Check
left_out tag [] = []
left_out tag (c ∷ cs) = let rest = left_out tag cs in if passes tag c then rest else c ∷ rest

All-filtered : (tag : Text) (cs : List Check) → All (λ c. passes tag c ≡ true) (filtered tag cs)
unfolding filtered
All-filtered tag [] = tt
All-filtered tag (c ∷ cs) = elim (Bool-cases (passes tag c)) [
  | inl e ↦ rw e (e, All-filtered tag cs)
  | inr e ↦ rw e (All-filtered tag cs)
]

All-left_out : (tag : Text) (cs : List Check) → All (λ c. passes tag c ≡ false) (left_out tag cs)
unfolding left_out
All-left_out tag [] = tt
All-left_out tag (c ∷ cs) = elim (Bool-cases (passes tag c)) [
  | inl e ↦ rw e (All-left_out tag cs)
  | inr e ↦ rw e (e, All-left_out tag cs)
]

filtered-left_out : (tag : Text) (cs : List Check) → Perm (filtered tag cs ++ left_out tag cs) cs
unfolding filtered left_out
filtered-left_out tag [] = Perm.refl []
filtered-left_out tag (c ∷ cs) = elim (Bool-cases (passes tag c)) [
  | inl e ↦ rw e (Perm.cons c (filtered-left_out tag cs))
  | inr e ↦ rw e (
      Perm.trans (perm_middle (filtered tag cs) (left_out tag cs))
        (Perm.cons c (filtered-left_out tag cs)))
]

by_status_total : (a b : Check) → by_status a b ≡ false → by_status b a ≡ true
by_status_total a b h = ground arith

by_status_trans :
    (a b c : Check) → by_status a b ≡ true → by_status b c ≡ true → by_status a c ≡ true
by_status_trans a b c h k = ground arith

-- The place of a check's status in the order.
abbrev rank : Check → ℕ
rank c = status_order c.status

-- A sorted list from the rank `n` on: first the checks of this rank, and then those above.
record FromRank (n : ℕ) (cs : List Check) : Type 0 where
  first : List Check
  others : List Check
  joined : cs ≡ first ++ others
  ranked : All (λ c. rank c ≡ n) first
  above : All (λ c. suc n ≤ rank c) others
  sorted : IsSortedBy by_status others

ranked-FromRank :
    (n : ℕ) (cs : List Check) → IsSortedBy by_status cs → All (λ c. n ≤ rank c) cs → FromRank n cs
ranked-FromRank n [] s h = record {
  first = [];
  others = [];
  joined = refl;
  ranked = tt;
  above = tt;
  sorted = tt;
}
ranked-FromRank n (c ∷ cs) s h = elim (Bool-cases (rank c == n)) [
  | inl e ↦
      let rest = ranked-FromRank n cs s.1 h.1 in
      record {
        first = c ∷ rest.first;
        others = rest.others;
        joined = ap (λ l. c ∷ l) rest.joined;
        ranked = (ground (arith, e), rest.ranked);
        above = rest.above;
        sorted = rest.sorted;
      }
  | inr e ↦
      let high : suc n ≤ rank c = ground (arith, e, h.0) in
      record {
        first = [];
        others = c ∷ cs;
        joined = refl;
        ranked = tt;
        above = (high, All-map cs (λ d b. ground (arith, b, high)) s.0);
        sorted = s;
      }
]

-- The blocks of a page: the checks that are down, up, new and paused, and those of another status.
pub record InBlocks (cs : List Check) : Type 0 where
  pub downs : List Check
  pub ups : List Check
  pub news : List Check
  pub pauseds : List Check
  pub others : List Check
  pub blocks : cs ≡ downs ++ (ups ++ (news ++ (pauseds ++ others)))
  pub are_down : All (λ c. c.status ≡ Status.down) downs
  pub are_up : All (λ c. c.status ≡ Status.up) ups
  pub are_new : All (λ c. c.status ≡ Status.new) news
  pub are_paused : All (λ c. c.status ≡ Status.paused) pauseds
  pub are_other : All (λ c. (s : Text) × (c.status ≡ Status.other s)) others

-- The status of each rank.
of_rank :
    (s : Status)
    → (status_order s ≡ 0 → s ≡ Status.down)
      × (status_order s ≡ 1 → s ≡ Status.up)
      × (status_order s ≡ 2 → s ≡ Status.new)
      × (status_order s ≡ 3 → s ≡ Status.paused)
      × (4 ≤ status_order s → (t : Text) × (s ≡ Status.other t))
of_rank Status.down =
    (λ e. refl, λ e. ground arith, λ e. ground arith, λ e. ground arith, λ h. ground arith)
of_rank Status.up =
    (λ e. ground arith, λ e. refl, λ e. ground arith, λ e. ground arith, λ h. ground arith)
of_rank Status.new =
    (λ e. ground arith, λ e. ground arith, λ e. refl, λ e. ground arith, λ h. ground arith)
of_rank Status.paused =
    (λ e. ground arith, λ e. ground arith, λ e. ground arith, λ e. refl, λ h. ground arith)
of_rank (Status.other t) =
    (λ e. ground arith, λ e. ground arith, λ e. ground arith, λ e. ground arith, λ h. (t, refl))

All-low : (cs : List Check) → All (λ c. 0 ≤ rank c) cs
All-low [] = tt
All-low (c ∷ cs) = (omega arith, All-low cs)

sorted-InBlocks : (cs : List Check) → IsSortedBy by_status cs → InBlocks cs
sorted-InBlocks cs s =
    let a = ranked-FromRank 0 cs s (All-low cs) in
    let b = ranked-FromRank 1 a.others a.sorted a.above in
    let c = ranked-FromRank 2 b.others b.sorted b.above in
    let d = ranked-FromRank 3 c.others c.sorted c.above in
    record {
      downs = a.first;
      ups = b.first;
      news = c.first;
      pauseds = d.first;
      others = d.others;
      blocks =
          a.joined
          ∙ ap (λ l. a.first ++ l)
              (b.joined ∙ ap (λ l. b.first ++ l) (c.joined ∙ ap (λ l. c.first ++ l) d.joined));
      are_down = All-map a.first (λ x e. (of_rank x.status).0 e) a.ranked;
      are_up = All-map b.first (λ x e. (of_rank x.status).1 e) b.ranked;
      are_new = All-map c.first (λ x e. (of_rank x.status).2 e) c.ranked;
      are_paused = All-map d.first (λ x e. (of_rank x.status).3 e) d.ranked;
      are_other = All-map d.others (λ x e. (of_rank x.status).4 e) d.above;
    }

-- The list of checks that pass the tag filter and of those that it leaves out.
pub record Lists (tag : Text) (cs page : List Check) : Type 0 where
  pub hidden : List Check
  pub complete : Perm (page ++ hidden) cs
  pub shown : All (λ c. passes tag c ≡ true) page
  pub failing : All (λ c. passes tag c ≡ false) hidden
  pub ordered : InBlocks page

-- The page lists, each as often as it is there, exactly the checks that pass the tag filter: with
-- others that do not pass they are all checks. First come the checks that are down, then those
-- that are up, then the new ones, the paused ones, and those of any other status.
pub listed-Lists : (tag : Text) (cs : List Check) → Lists tag cs (listed tag cs)
unfolding listed
listed-Lists tag cs = record {
  hidden = left_out tag cs;
  complete =
      Perm.trans (Perm.append_right (left_out tag cs) (sort_by-perm by_status (filtered tag cs)))
        (filtered-left_out tag cs);
  shown = All-sort_by by_status _ (filtered tag cs) (All-filtered tag cs);
  failing = All-left_out tag cs;
  ordered =
      sorted-InBlocks _
        (sort_by-IsSortedBy by_status by_status_total by_status_trans (filtered tag cs));
}
