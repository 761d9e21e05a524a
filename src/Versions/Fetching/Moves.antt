-- ===== src/Versions/Fetching/Moves.antt =====
-- The step that is always there while ids are on their way, with at most 260 rows.
use ipadecrypt.Prelude.{
  ℕ, suc, ◌+◌, ◌*◌, ◌≤◌, ◌<◌, ◌≡◌, refl, ap, ◌∙◌, sym, arith, false, Bool-cases, ltb→lt, inl, inr,
  ltb, Option, none, some, List, [], ◌∷◌, ◌++◌, length, length-append, Bytes,
}
use ipadecrypt.Versions.Fetching.Flight.{ids, outgoing_ids, flight, flight-count, places, Sound}
use ipadecrypt.Versions.Fetching.{
  State, queue_size, workers, Works, sent, taken, answered, delivered, applied,
}
use ipadecrypt.Versions.Screen.{FetchResult, apply_result}
use ipadecrypt.Versions.Tally.{count, count-length, mem-true}

-- The steps that are left for the ids on their way.
abbrev pub work_left : State → ℕ
work_left s =
    5 * length (outgoing_ids s.outgoing)
    + 4 * length s.queue
    + 3 * length s.fetching
    + 2 * length s.sending
    + length s.results

abbrev pub Move : State → Type 0
Move s = (t : State) × Works s t × (work_left t < work_left s)

ids-length : (rs : List FetchResult) → length (ids rs) ≡ length rs
ids-length [] = refl
ids-length (r ∷ rs) = ap suc (ids-length rs)

count_nil : (a : Bytes) (xs : List Bytes) → length xs ≡ 0 → count a xs ≡ 0
count_nil a [] h = refl
count_nil a (x ∷ xs) h = absurd (omega arith)

pub no_places : (a : Bytes) (s : State) → work_left s ≡ 0 → places a s ≡ 0
no_places a s h = omega (
  arith,
  count_nil a (outgoing_ids s.outgoing) (omega arith),
  count_nil a s.queue (omega arith),
  count_nil a s.fetching (omega arith),
  count_nil a (ids s.sending) (omega (arith, ids-length s.sending)),
  count_nil a (ids s.results) (omega (arith, ids-length s.results)),
)

-- No more ids are on their way than there are rows.
flight-rows : (all : List Bytes) (s : State) → Sound all s → length (flight s) ≤ length all
flight-rows all s g = count-length (flight s) all (λ a. bound a)
  where
    bound : (a : Bytes) → count a (flight s) ≤ count a all
    bound a =
        let here : count a (flight s) ≡ count a s.ui.queued = flight-count a s ∙ g.tracked a in
        elim (Bool-cases (ltb 0 (count a s.ui.queued))) [
          | inl h ↦ omega (
            arith,
            here,
            g.queued.once a,
            mem-true a all (g.queued.known a (ltb→lt 0 (count a s.ui.queued) h)),
          )
          | inr h ↦ ground (arith, here, h)
        ]

flight-length :
    (s : State)
    → length (flight s)
      ≡ length (outgoing_ids s.outgoing)
        + length s.queue
        + length s.fetching
        + length s.sending
        + length s.results
flight-length s = omega (
  arith,
  length-append (outgoing_ids s.outgoing)
      (s.queue ++ (s.fetching ++ (ids s.sending ++ ids s.results))),
  length-append s.queue (s.fetching ++ (ids s.sending ++ ids s.results)),
  length-append s.fetching (ids s.sending ++ ids s.results),
  length-append (ids s.sending) (ids s.results),
  ids-length s.sending,
  ids-length s.results,
)

-- The fetches and the clock: whatever a fetch answers, with its row's id.
module _ (now : ℕ) (answer : Bytes → FetchResult)
    (answers : (id : Bytes) → (answer id).ext_ver_id ≡ id) where
  send_on : (s : State) (id : Bytes) → s.outgoing ≡ some id → length s.queue < queue_size → Move s
  send_on s id e room = (
    record s { outgoing = none; queue = s.queue ++ id ∷ [] },
    sent e room,
    omega (arith, length-append s.queue (id ∷ []), ap (λ o. length (outgoing_ids o)) e),
  )

  take_next :
      (s : State) (id : Bytes) (more : List Bytes)
      → s.queue ≡ id ∷ more
      → length s.fetching + length s.sending < workers
      → Move s
  take_next s id more e room = (
    record s { queue = more; fetching = id ∷ s.fetching },
    taken e room,
    omega (arith, ap length e),
  )

  answer_next : (s : State) (id : Bytes) (more : List Bytes) → s.fetching ≡ id ∷ more → Move s
  answer_next s id more e = (
    record s { fetching = more; sending = answer id ∷ s.sending },
    answered (answer id) [] more (e ∙ ap (λ a. a ∷ more) (sym (answers id))),
    omega (arith, ap length e),
  )

  deliver_next :
      (s : State) (res : FetchResult) (more : List FetchResult)
      → s.sending ≡ res ∷ more
      → length s.results < workers
      → Move s
  deliver_next s res more e room = (
    record s { sending = more; results = s.results ++ res ∷ [] },
    delivered res [] more e room,
    omega (arith, ap length e, length-append s.results (res ∷ [])),
  )

  apply_next :
      (s : State) (res : FetchResult) (more : List FetchResult)
      → s.outgoing ≡ none
      → s.results ≡ res ∷ more
      → Move s
  apply_next s res more idle e = (
    record s { ui = apply_result now res s.ui; results = more },
    applied now idle e,
    omega (arith, ap length e),
  )

  -- The main loop waits to send, and the queue is full.
  filled_step :
      (all : List Bytes) (s : State) (id : Bytes) (queue : List Bytes) (sending : List FetchResult)
      → Sound all s
      → length all ≤ 260
      → s.outgoing ≡ some id
      → s.fetching ≡ []
      → s.queue ≡ queue
      → queue_size ≤ length queue
      → s.sending ≡ sending
      → Move s
  filled_step all s id [] sending g few o f q full e = absurd (omega arith)
  filled_step all s id (a ∷ queue) [] g few o f q full e =
      take_next s a queue q (omega (arith, ap length f, ap length e))
  filled_step all s id (a ∷ queue) (res ∷ more) g few o f q full e =
      elim (Bool-cases (ltb (length s.results) workers)) [
        | inl room ↦ deliver_next s res more e (ltb→lt (length s.results) workers room)
        | inr filled ↦ take_next s a queue q (
            omega (
              arith,
              few,
              full,
              flight-rows all s g,
              flight-length s,
              ap (λ o. length (outgoing_ids o)) o,
              ap length f,
              ap length q,
              g.result_room,
              g.worker_room,
              not_ltb (length s.results) workers filled,
            ))
      ]
    where
      not_ltb : (a b : ℕ) → ltb a b ≡ false → b ≤ a
      not_ltb a b h = ground (arith, h)

  idle_step :
      (s : State) (queue : List Bytes) (sending results : List FetchResult)
      → s.outgoing ≡ none
      → s.fetching ≡ []
      → s.queue ≡ queue
      → s.sending ≡ sending
      → s.results ≡ results
      → 0 < work_left s
      → Move s
  idle_step s queue sending (res ∷ more) o f q e r h = apply_next s res more o r
  idle_step s queue (res ∷ more) [] o f q e r h =
      deliver_next s res more e (omega (arith, ap length r))
  idle_step s (a ∷ queue) [] [] o f q e r h =
      take_next s a queue q (omega (arith, ap length f, ap length e))
  idle_step s [] [] [] o f q e r h = absurd (
      omega (
        arith,
        h,
        ap (λ o. length (outgoing_ids o)) o,
        ap length f,
        ap length q,
        ap length e,
        ap length r,
      ))

  pub next_step :
      (all : List Bytes) (s : State) (o : Option Bytes) (fetching : List Bytes)
      → Sound all s
      → length all ≤ 260
      → s.outgoing ≡ o
      → s.fetching ≡ fetching
      → 0 < work_left s
      → Move s
  next_step all s o (id ∷ more) g few e f h = answer_next s id more f
  next_step all s none [] g few e f h = idle_step s s.queue s.sending s.results e f refl refl refl h
  next_step all s (some id) [] g few e f h = elim (Bool-cases (ltb (length s.queue) queue_size)) [
    | inl room ↦ send_on s id e (ltb→lt (length s.queue) queue_size room)
    | inr full ↦ filled_step all s id s.queue s.sending g few e f refl (ground (arith, full)) refl
  ]
