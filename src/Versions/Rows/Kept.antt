-- ===== src/Versions/Rows/Kept.antt =====
-- `rebuildPredictions` writes predictions and nothing else.
use ipadecrypt.Prelude.{
  ℕ, zero, suc, ◌+◌, ◌-◌, ◌≡◌, refl, ap, ◌∙◌, arith, inl, inr, Option-cases, List, [], ◌∷◌, length,
  add64, Bytes,
}
use ipadecrypt.Versions.Guess.{version, monotonic_version_fill}
use ipadecrypt.Versions.Rows.{
  Row, set_predicted, clear_predicted, fetched_from, display_at, guess_up, guess_head,
  write_guesses, guess_gap, guess_gaps, guess_down, guess_tail, last_index, predict,
  rebuild_predictions,
}
use ipadecrypt.Versions.Semver.{Semver, parse_semver3, show_semver}

-- The rows without their predictions.
abbrev pub bare : List Row → List Row
bare [] = []
bare (r ∷ rows) = record r { predicted = [] } ∷ bare rows

set_predicted-bare :
    (i : ℕ) (s : Bytes) (rows : List Row) → bare (set_predicted i s rows) ≡ bare rows
unfolding set_predicted
set_predicted-bare i s [] = refl
set_predicted-bare zero s (r ∷ rows) = refl
set_predicted-bare (suc i) s (r ∷ rows) =
    ap (◌∷◌ (record r { predicted = [] })) (set_predicted-bare i s rows)

clear_predicted-bare : (rows : List Row) → bare (clear_predicted rows) ≡ bare rows
unfolding clear_predicted
clear_predicted-bare [] = refl
clear_predicted-bare (r ∷ rows) = ap (◌∷◌ (record r { predicted = [] })) (clear_predicted-bare rows)

guess_up-bare :
    (nm : Semver) (first i : ℕ) (rows : List Row) → bare (guess_up nm first i rows) ≡ bare rows
unfolding guess_up
guess_up-bare nm first zero rows = refl
guess_up-bare nm first (suc i) rows =
    let text : Bytes = show_semver (version nm.major (add64 nm.minor (first - i)) 0) in
    guess_up-bare nm first i (set_predicted i text rows) ∙ set_predicted-bare i text rows

guess_head-bare : (first : ℕ) (rows : List Row) → bare (guess_head first rows) ≡ bare rows
unfolding guess_head
guess_head-bare first rows = elim (Option-cases (parse_semver3 (display_at rows first))) [
  | inl e ↦ ground (arith, e)
  | inr (nm, e) ↦ ground (arith, e, guess_up-bare nm first first rows)
]

write_guesses-bare :
    (i : ℕ) (gs : List Bytes) (rows : List Row) → bare (write_guesses i gs rows) ≡ bare rows
unfolding write_guesses
write_guesses-bare i [] rows = refl
write_guesses-bare i ([] ∷ gs) rows = write_guesses-bare (suc i) gs rows
write_guesses-bare i ((c ∷ g) ∷ gs) rows =
    write_guesses-bare (suc i) gs (set_predicted i (c ∷ g) rows) ∙ set_predicted-bare i (c ∷ g) rows

guess_gap-bare : (a b : ℕ) (rows : List Row) → bare (guess_gap a b rows) ≡ bare rows
unfolding guess_gap
guess_gap-bare a b rows =
    let gs : List Bytes =
      monotonic_version_fill (display_at rows a) (display_at rows b) (b - a - 1) in
    ground (arith, write_guesses-bare (suc a) gs rows)

guess_gaps-bare : (is : List ℕ) (rows : List Row) → bare (guess_gaps is rows) ≡ bare rows
unfolding guess_gaps
guess_gaps-bare [] rows = refl
guess_gaps-bare (a ∷ []) rows = refl
guess_gaps-bare (a ∷ b ∷ rest) rows =
    guess_gaps-bare (b ∷ rest) (guess_gap a b rows) ∙ guess_gap-bare a b rows

guess_down-bare :
    (om : Semver) (last offset left : ℕ) (rows : List Row)
    → bare (guess_down om last offset left rows) ≡ bare rows
unfolding guess_down
guess_down-bare om last offset zero rows = refl
guess_down-bare om last offset (suc left) rows =
    let text : Bytes = show_semver (version om.major (om.minor - offset) 0) in
    let next : List Row = set_predicted (last + offset) text rows in
    ground (
      arith,
      guess_down-bare om last (suc offset) left next,
      set_predicted-bare (last + offset) text rows,
    )

guess_tail-bare : (last : ℕ) (rows : List Row) → bare (guess_tail last rows) ≡ bare rows
unfolding guess_tail
guess_tail-bare last rows = elim (Option-cases (parse_semver3 (display_at rows last))) [
  | inl e ↦ ground (arith, e)
  | inr (om, e) ↦ ground (arith, e, guess_down-bare om last 1 (length rows - suc last) rows)
]

predict-bare : (is : List ℕ) (rows : List Row) → bare (predict is rows) ≡ bare rows
unfolding predict
predict-bare [] rows = refl
predict-bare (first ∷ more) rows =
    guess_tail-bare (last_index first more) (guess_gaps (first ∷ more) (guess_head first rows))
    ∙ guess_gaps-bare (first ∷ more) (guess_head first rows)
    ∙ guess_head-bare first rows

-- The rows differ from those before in their predictions alone.
pub rebuild_predictions-bare : (rows : List Row) → bare (rebuild_predictions rows) ≡ bare rows
unfolding rebuild_predictions
rebuild_predictions-bare rows =
    predict-bare (fetched_from 0 rows) (clear_predicted rows) ∙ clear_predicted-bare rows
