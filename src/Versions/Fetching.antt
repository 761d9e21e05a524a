-- ===== src/Versions/Fetching.antt =====
-- cmd/ipadecrypt/versions_tui.go: the loops of `runVersionsUI` with the fetch workers and the
-- channels `queue` and `results`, as a step relation. A channel is the list of what it holds, and a
-- send waits while it is full.
pub mod Flight
pub mod Sound
pub mod Moves
pub mod Settles
use ipadecrypt.Prelude.{
  ℕ, zero, suc, ◌+◌, ◌<◌, ◌≡◌, Bool, true, false, Option, none, some, List, [], ◌∷◌, ◌++◌, length,
  if◌then◌else◌, Bytes,
}
use ipadecrypt.Versions.Keys.{Handled, handle_input}
use ipadecrypt.Versions.Rows.{RowState, row_unfetched, row_pending, row_fetched, row_error, Row}
use ipadecrypt.Versions.Screen.{FetchResult, Ui, enqueue, apply_result}

-- The capacities of the two channels, and the number of workers.
abbrev pub queue_size : ℕ
queue_size = 256

abbrev pub workers : ℕ
workers = 2

-- `outgoing` is the id that the main loop waits to send. A worker is idle, fetches an id or waits to
-- send a result. `left` is set once the loop that reads keys is left; the results are read on.
pub record State : Type 0 where
  pub ui : Ui
  pub outgoing : Option Bytes
  pub queue : List Bytes
  pub fetching : List Bytes
  pub sending : List FetchResult
  pub results : List FetchResult
  pub left : Bool

abbrev pub is_unfetched : RowState → Bool
is_unfetched row_unfetched = true
is_unfetched _ = false

-- The first `n` rows that are not fetched are queued; the queue has room for them.
abbrev pub add_sent : Option Bytes → List Bytes → List Bytes
add_sent none queue = queue
add_sent (some id) queue = queue ++ id ∷ []

unfoldable pub eager_row : Row → Ui × List Bytes → Ui × List Bytes
eager_row r (ui, queue) =
    if is_unfetched r.state
    then (let e = enqueue r.ext_ver_id ui in (e.0, add_sent e.1 queue))
    else (ui, queue)

unfoldable pub eager_fetch : ℕ → List Row → Ui × List Bytes → Ui × List Bytes
eager_fetch zero rows s = s
eager_fetch (suc n) [] s = s
eager_fetch (suc n) (r ∷ rows) s = eager_fetch n rows (eager_row r s)

unfoldable pub start : Ui → State
start ui =
    let e = eager_fetch 3 ui.rows (ui, []) in
    record {
      ui = e.0;
      outgoing = none;
      queue = e.1;
      fetching = [];
      sending = [];
      results = [];
      left = false;
    }

-- The steps that no key is needed for: those of `fetchWorker`, and of the main loop `queue <- extVerID`
-- at the end of `enqueue`, which waits for room, and `applyResult` on a result.
pub data Works : State → State → Type 0 where
  -- The end of `enqueue`.
  sent :
      {s : State} {id : Bytes}
      → s.outgoing ≡ some id
      → length s.queue < queue_size
      → Works s (record s { outgoing = none; queue = s.queue ++ id ∷ [] })
  -- `range queue`, the two requests, and the send at the end of the round.
  taken :
      {s : State} {id : Bytes} {more : List Bytes}
      → s.queue ≡ id ∷ more
      → length s.fetching + length s.sending < workers
      → Works s (record s { queue = more; fetching = id ∷ s.fetching })
  answered :
      {s : State} (res : FetchResult) (before after : List Bytes)
      → s.fetching ≡ before ++ res.ext_ver_id ∷ after
      → Works s (record s { fetching = before ++ after; sending = res ∷ s.sending })
  delivered :
      {s : State} (res : FetchResult) (before after : List FetchResult)
      → s.sending ≡ before ++ res ∷ after
      → length s.results < workers
      → Works s (record s { sending = before ++ after; results = s.results ++ res ∷ [] })
  -- A result in the main loop, before and after it is left.
  applied :
      {s : State} {res : FetchResult} {more : List FetchResult} (now : ℕ)
      → s.outgoing ≡ none
      → s.results ≡ res ∷ more
      → Works s (record s { ui = apply_result now res s.ui; results = more })

pub data Step : State → State → Type 0 where
  worked : {s t : State} → Works s t → Step s t
  -- Bytes of the keyboard, in a terminal of `height` lines.
  pressed :
      {s : State} (height : ℕ) (buf : Bytes)
      → s.left ≡ false
      → s.outgoing ≡ none
      → Step s (
          let h = handle_input height buf s.ui in
          record s { ui = h.ui; outgoing = h.send; left = h.leave })

pub data Reachable (ui : Ui) : State → Type 0 where
  started : Reachable ui (start ui)
  stepped : {s t : State} → Reachable ui s → Step s t → Reachable ui t
