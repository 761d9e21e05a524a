-- ===== src/Versions/Rows.antt =====
-- cmd/ipadecrypt/versions_tui.go: the rows of the table, and `rebuildPredictions`. Of `predicted`
-- only `DisplayVersion` is ever written, so that it is kept as that text.
pub mod Kept
use ipadecrypt.Prelude.{
  ℕ, zero, suc, ◌+◌, ◌-◌, Bool, true, false, Option, none, some, List, [], ◌∷◌, map, length,
  get_elem?, ltb, leb, ◌==◌, if◌then◌else◌, add64, Bytes,
}
use ipadecrypt.Versions.Entry.{CachedVersion}
use ipadecrypt.Versions.Guess.{version, monotonic_version_fill}
use ipadecrypt.Versions.Semver.{Semver, parse_semver3, show_semver}

pub data RowState : Type 0 where
  row_unfetched row_pending row_fetched row_error : RowState

abbrev pub is_fetched : RowState → Bool
is_fetched row_fetched = true
is_fetched _ = false

pub record Row : Type 0 where
  pub ext_ver_id : Bytes
  pub state : RowState
  pub meta : CachedVersion
  pub err_msg : Bytes
  pub predicted : Bytes

-- `ui.rows[i].predicted.DisplayVersion = text`.
unfoldable pub set_predicted : ℕ → Bytes → List Row → List Row
set_predicted i text [] = []
set_predicted zero text (r ∷ rows) = record r { predicted = text } ∷ rows
set_predicted (suc i) text (r ∷ rows) = r ∷ set_predicted i text rows

unfoldable pub clear_predicted : List Row → List Row
clear_predicted [] = []
clear_predicted (r ∷ rows) = record r { predicted = [] } ∷ clear_predicted rows

-- The indices of the fetched rows, of rows that start at index `i`.
unfoldable pub fetched_from : ℕ → List Row → List ℕ
fetched_from i [] = []
fetched_from i (r ∷ rows) =
    let more = fetched_from (suc i) rows in if is_fetched r.state then i ∷ more else more

unfoldable pub display_at : List Row → ℕ → Bytes
display_at rows i = elim (get_elem? rows i) [ none ↦ [] | some r ↦ r.meta.display_version ]

-- The rows above index `i`, from the one next to it upward; `first` is the fetched row's index.
unfoldable pub guess_up : Semver → ℕ → ℕ → List Row → List Row
guess_up nm first zero rows = rows
guess_up nm first (suc i) rows =
    guess_up nm first i
      (set_predicted i (show_semver (version nm.major (add64 nm.minor (first - i)) 0)) rows)

unfoldable pub guess_head : ℕ → List Row → List Row
guess_head first rows = elim (parse_semver3 (display_at rows first)) [
  | none ↦ rows
  | some nm ↦ guess_up nm first first rows
]

-- The guesses of a gap, from index `i` on.
unfoldable pub write_guesses : ℕ → List Bytes → List Row → List Row
write_guesses i [] rows = rows
write_guesses i ([] ∷ gs) rows = write_guesses (suc i) gs rows
write_guesses i ((c ∷ g) ∷ gs) rows = write_guesses (suc i) gs (set_predicted i (c ∷ g) rows)

unfoldable pub guess_gap : ℕ → ℕ → List Row → List Row
guess_gap a b rows =
    if b - a - 1 == 0
    then rows
    else write_guesses (suc a)
        (monotonic_version_fill (display_at rows a) (display_at rows b) (b - a - 1)) rows

unfoldable pub guess_gaps : List ℕ → List Row → List Row
guess_gaps [] rows = rows
guess_gaps (a ∷ []) rows = rows
guess_gaps (a ∷ b ∷ rest) rows = guess_gaps (b ∷ rest) (guess_gap a b rows)

-- The rows below the last fetched one, `offset` behind it and on, `left` of them.
unfoldable pub guess_down : Semver → ℕ → ℕ → ℕ → List Row → List Row
guess_down om last offset zero rows = rows
guess_down om last offset (suc left) rows =
    let more =
      guess_down om last (suc offset) left (
        set_predicted (last + offset) (show_semver (version om.major (om.minor - offset) 0))
          rows) in
    if ltb om.minor offset then rows else more

unfoldable pub guess_tail : ℕ → List Row → List Row
guess_tail last rows = elim (parse_semver3 (display_at rows last)) [
  | none ↦ rows
  | some om ↦ guess_down om last 1 (length rows - suc last) rows
]

unfoldable pub last_index : ℕ → List ℕ → ℕ
last_index i [] = i
last_index i (j ∷ js) = last_index j js

unfoldable pub predict : List ℕ → List Row → List Row
predict [] rows = rows
predict (first ∷ more) rows =
    guess_tail (last_index first more) (guess_gaps (first ∷ more) (guess_head first rows))

unfoldable pub rebuild_predictions : List Row → List Row
rebuild_predictions rows = predict (fetched_from 0 rows) (clear_predicted rows)
