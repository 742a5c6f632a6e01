-- ===== src/Handler/Dashboard/Squares.antt =====
-- The strip of the last 30 pings in internal/handler/dashboard.go. `rfc3339` is
-- Format(time.RFC3339).
use cron_mon.Base.{
  ℕ, zero, suc, ◌+◌, ◌-◌, ◌≡◌, ◌∙◌, ap, refl, true, false, List, [], ◌∷◌, ◌++◌, map, arith, length,
  take, replicate, ltb, if◌then◌else◌,
}
use mathlib.Core.List.{reverse, reverse_aux-eq, append-nil, append_assoc}
use cron_mon.Base.Text.{Text, quoted}
use cron_mon.Time.{Time}
use cron_mon.Model.{PingType, success, start, fail, Ping}

pub record PingSquare : Type 0 where
  pub class : Text
  pub title : Text

unfoldable pub ping_type_text : PingType → Text
ping_type_text success = quoted "success"
ping_type_text start = quoted "start"
ping_type_text fail = quoted "fail"

abbrev pub grid_size : ℕ
grid_size = 30

-- The zero value, and the cell without a ping.
abbrev pub zero_square : PingSquare
zero_square = record { class = []; title = [] }

abbrev pub empty_square : PingSquare
empty_square = record { class = quoted "empty"; title = quoted "no data" }

-- squares[i] = sq; a write out of range, which would panic, is dropped.
unfoldable pub write_at : ℕ → PingSquare → List PingSquare → List PingSquare
write_at i sq [] = []
write_at zero sq (s ∷ squares) = sq ∷ squares
write_at (suc i) sq (s ∷ squares) = s ∷ write_at i sq squares

-- The second loop, from i on, for n rounds.
unfoldable pub fill_empty : ℕ → ℕ → List PingSquare → List PingSquare
unfolding write_at
fill_empty zero i squares = squares
fill_empty (suc n) i squares = fill_empty n (suc i) (write_at i empty_square squares)

module _ (rfc3339 : Time → Text) where
  unfoldable pub square : Ping → PingSquare
  unfolding ping_type_text
  square p = record { class = ping_type_text p.type; title = rfc3339 p.created_at }

  -- The first loop, from i on.
  unfoldable pub fill_pings : ℕ → List Ping → List PingSquare → List PingSquare
  unfolding write_at square
  fill_pings i [] squares = squares
  fill_pings i (p ∷ ps) squares =
      let rest = fill_pings (suc i) ps (write_at (grid_size - 1 - i) (square p) squares) in
      if ltb i grid_size then rest else squares

  -- buildPingSquares. A difference below 0 and the difference 0 both end the second loop at once.
  unfoldable pub build_ping_squares : List Ping → List PingSquare
  unfolding fill_empty fill_pings
  build_ping_squares ps =
      fill_empty (grid_size - length ps) 0 (fill_pings 0 ps (replicate grid_size zero_square))

-- A write at the end of a row of equal cells.
write_at-replicate :
    (n : ℕ) (z sq : PingSquare) (rest : List PingSquare)
    → write_at n sq (replicate (suc n) z ++ rest) ≡ replicate n z ++ sq ∷ rest
unfolding write_at
write_at-replicate zero z sq rest = refl
write_at-replicate (suc n) z sq rest = ap (λ l. z ∷ l) (write_at-replicate n z sq rest)

-- A write right after a row.
write_at_end :
    (n : ℕ) (sq z : PingSquare) (rest : List PingSquare)
    → write_at n sq (replicate n sq ++ z ∷ rest) ≡ replicate (suc n) sq ++ rest
unfolding write_at
write_at_end zero sq z rest = refl
write_at_end (suc n) sq z rest = ap (λ l. sq ∷ l) (write_at_end n sq z rest)

fill_empty-replicate :
    (n i : ℕ) (rest : List PingSquare)
    → fill_empty n i (replicate i empty_square ++ (replicate n zero_square ++ rest))
      ≡ replicate (n + i) empty_square ++ rest
unfolding fill_empty
fill_empty-replicate zero i rest = let e : 0 + i ≡ i = omega arith in rw e refl
fill_empty-replicate (suc n) i rest =
    let e : suc n + i ≡ n + suc i = omega arith in
    rw (write_at_end i empty_square zero_square (replicate n zero_square ++ rest), e)
      (fill_empty-replicate n (suc i) rest)

-- What the first loop makes of a row whose last cells are filled.
fill_pings-replicate :
    (rfc3339 : Time → Text) (ps : List Ping) (m i : ℕ) (filled : List PingSquare)
    → m + i ≡ grid_size
    → fill_pings rfc3339 i ps (replicate m zero_square ++ filled)
      ≡ replicate (m - length ps) zero_square
        ++ (reverse (map (square rfc3339) (take m ps)) ++ filled)
unfolding fill_pings
fill_pings-replicate rfc3339 [] zero i filled h = refl
fill_pings-replicate rfc3339 [] (suc m) i filled h =
    let e : suc m - 0 ≡ suc m = omega arith in rw e refl
fill_pings-replicate rfc3339 (p ∷ ps) zero i filled h =
    let full : ltb i grid_size ≡ false = ground arith in
    let none_left : 0 - suc (length ps) ≡ 0 = omega arith in rw (full, none_left) refl
fill_pings-replicate rfc3339 (p ∷ ps) (suc m) i filled h =
    let room : ltb i grid_size ≡ true = ground arith in
    let place : grid_size - 1 - i ≡ m = omega arith in
    let less : suc m - suc (length ps) ≡ m - length ps = omega arith in
    let newer = map (square rfc3339) (take m ps) in
    let last = square rfc3339 p in
    rw
      (
        room,
        place,
        write_at-replicate m zero_square last filled,
        less,
        reverse_aux-eq newer (last ∷ []),
        append_assoc (reverse newer) (last ∷ []) filled,
      )
      (fill_pings-replicate rfc3339 ps m (suc i) (last ∷ filled) (omega arith))

-- The strip shows the newest 30 pings from the oldest to the newest, after an empty cell for each
-- ping that there are less than 30.
pub build_ping_squares-newest :
    (rfc3339 : Time → Text) (ps : List Ping)
    → build_ping_squares rfc3339 ps
      ≡ replicate (grid_size - length ps) empty_square
        ++ reverse (map (square rfc3339) (take grid_size ps))
unfolding build_ping_squares
build_ping_squares-newest rfc3339 ps =
    let left = grid_size - length ps in
    let shown = reverse (map (square rfc3339) (take grid_size ps)) in
    let same : left + 0 ≡ left = omega arith in
    ap (fill_empty left 0) (fill_pings-replicate rfc3339 ps grid_size 0 [] refl)
    ∙ fill_empty-replicate left 0 (shown ++ [])
    ∙ ap (λ n. replicate n empty_square ++ (shown ++ [])) same
    ∙ ap (λ l. replicate left empty_square ++ l) (append-nil shown)
