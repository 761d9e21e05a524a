-- ===== src/Versions/Fetching/Settles.antt =====
-- With at most 260 rows the main loop, the workers and the channels never wait for one another in a
-- circle, and everything that is queued is fetched.
use ipadecrypt.Prelude.{
  ℕ, zero, suc, ◌≤◌, ◌≡◌, refl, ap, ◌∙◌, sym, arith, false, Bool-cases, ltb→lt, inl, inr, ltb, List,
  [], ◌∷◌, length, Bytes,
}
use ipadecrypt.Prelude.Text.Laws.{equal_refl}
use ipadecrypt.Versions.Fetching.Flight.{Sound}
use ipadecrypt.Versions.Fetching.Moves.{Move, work_left, no_places, next_step}
use ipadecrypt.Versions.Fetching.Sound.{Works-Sound, Reachable-Sound}
use ipadecrypt.Versions.Fetching.{State, Works, Reachable}
use ipadecrypt.Versions.Rows.{Row}
use ipadecrypt.Versions.Screen.{FetchResult, Ui, has_pending}
use ipadecrypt.Versions.Tally.{count, row_ids}

-- Any number of steps that need no key.
pub data Runs : State → State → Type 0 where
  rests : {s : State} → Runs s s
  goes : {s t u : State} → Works s t → Runs t u → Runs s u

-- The fetches and the clock: whatever a fetch answers, with its row's id.
module _ (now : ℕ) (answer : Bytes → FetchResult)
    (answers : (id : Bytes) → (answer id).ext_ver_id ≡ id) where
  nothing_queued : (xs : List Bytes) → ((a : Bytes) → count a xs ≡ 0) → xs ≡ []
  nothing_queued [] h = refl
  nothing_queued (x ∷ xs) h = absurd (ground (arith, h x, equal_refl x))

  quiet_end :
      (all : List Bytes) (s : State) → Sound all s → work_left s ≡ 0 → has_pending s.ui ≡ false
  unfolding has_pending
  quiet_end all s g h =
      let none_left : s.ui.queued ≡ [] =
        nothing_queued s.ui.queued (λ a. sym (g.tracked a) ∙ no_places a s h) in
      ground (arith, ap length none_left)

  settle :
      (all : List Bytes) (n : ℕ) (s : State)
      → Sound all s
      → length all ≤ 260
      → work_left s ≤ n
      → (t : State) × Runs s t × (has_pending t.ui ≡ false)
  settle all zero s g few h = (s, rests, quiet_end all s g (omega (arith, h)))
  settle all (suc n) s g few h = elim (Bool-cases (ltb 0 (work_left s))) [
    | inl more ↦
        let next : Move s =
          next_step now answer answers all s s.outgoing s.fetching g few refl refl
            (ltb→lt 0 (work_left s) more) in
        let rest =
          settle all n next.0 (Works-Sound all s next.0 next.1 g) few (omega (arith, next.2)) in
        (rest.0, goes next.1 rest.1, rest.2)
    | inr idle ↦ (s, rests, quiet_end all s g (ground (arith, idle)))
  ]

-- A table of at most 260 rows settles: from every state that is reached, whatever was typed and
-- however the workers and the channels took turns, the steps that need no key lead on to a state
-- with no row pending, whatever the fetches answer. In particular the main loop never waits for a
-- full queue for ever.
pub Reachable-settles :
    (ui : Ui) (s : State) (now : ℕ) (answer : Bytes → FetchResult)
    → ui.queued ≡ []
    → length ui.rows ≤ 260
    → Reachable ui s
    → ((id : Bytes) → (answer id).ext_ver_id ≡ id)
    → (t : State) × Runs s t × (has_pending t.ui ≡ false)
Reachable-settles ui s now answer empty few h answers =
    settle now answer answers (row_ids ui.rows) (work_left s) s (Reachable-Sound ui s empty h)
      (omega (arith, few, row_ids-length ui.rows)) (omega arith)
  where
    row_ids-length : (rows : List Row) → length (row_ids rows) ≡ length rows
    row_ids-length [] = refl
    row_ids-length (r ∷ rows) = ap suc (row_ids-length rows)
