-- ===== src/Versions/Fetching/Flight.antt =====
-- A queued id is on its way at exactly one place: waiting to be sent, in one of the two channels or
-- with a worker.
use ipadecrypt.Prelude.Text.Laws.{equal_iff}
use ipadecrypt.Prelude.Text.{equal}
use ipadecrypt.Prelude.{
  ℕ, ◌+◌, ◌≤◌, ◌<◌, ◌≡◌, refl, ap, ◌∙◌, sym, subst, arith, true, false, Bool-cases, inl, inr,
  Option, none, some, Option-cases, List, [], ◌∷◌, ◌++◌, length, Bytes,
}
use ipadecrypt.Versions.Fetching.{State, queue_size, workers}
use ipadecrypt.Versions.Keys.Sends.{SameRows}
use ipadecrypt.Versions.Rows.{Row}
use ipadecrypt.Versions.Screen.{
  FetchResult, cached_of, set_fetched, set_error, Ui, mem, delete, has_row, update_row, set_pending,
  store_result, apply_result,
}
use ipadecrypt.Versions.Tally.{
  one_if, count, count-append, count-delete_same, count-delete_other, mem-false, row_ids,
  has_row-mem, update_row-row_ids, rebuild_predictions-row_ids,
}

abbrev pub ids : List FetchResult → List Bytes
ids [] = []
ids (r ∷ rs) = r.ext_ver_id ∷ ids rs

pub ids-append : (rs ss : List FetchResult) → ids (rs ++ ss) ≡ ids rs ++ ids ss
ids-append [] ss = refl
ids-append (r ∷ rs) ss = ap (◌∷◌ r.ext_ver_id) (ids-append rs ss)

abbrev pub outgoing_ids : Option Bytes → List Bytes
outgoing_ids none = []
outgoing_ids (some id) = id ∷ []

-- All ids on their way.
abbrev pub flight : State → List Bytes
flight s = outgoing_ids s.outgoing ++ (s.queue ++ (s.fetching ++ (ids s.sending ++ ids s.results)))

-- The table's part: no id is queued twice, and each is one of the rows `all`.
pub record Queued (all : List Bytes) (ui : Ui) : Type 0 where
  pub once : (a : Bytes) → count a ui.queued ≤ 1
  pub known : (a : Bytes) → 0 < count a ui.queued → mem a all ≡ true
  pub rows_kept : row_ids ui.rows ≡ all

-- How often an id is on its way, place by place.
abbrev pub places : Bytes → State → ℕ
places a s =
    count a (outgoing_ids s.outgoing)
    + (count a s.queue + (count a s.fetching + (count a (ids s.sending) + count a (ids s.results))))

pub record Sound (all : List Bytes) (s : State) : Type 0 where
  pub queued : Queued all s.ui
  pub tracked : (a : Bytes) → places a s ≡ count a s.ui.queued
  pub queue_room : length s.queue ≤ queue_size
  pub worker_room : length s.fetching + length s.sending ≤ workers
  pub result_room : length s.results ≤ workers

pub flight-count : (a : Bytes) (s : State) → count a (flight s) ≡ places a s
flight-count a s = omega (
  arith,
  count-append a (outgoing_ids s.outgoing)
      (s.queue ++ (s.fetching ++ (ids s.sending ++ ids s.results))),
  count-append a s.queue (s.fetching ++ (ids s.sending ++ ids s.results)),
  count-append a s.fetching (ids s.sending ++ ids s.results),
  count-append a (ids s.sending) (ids s.results),
)

-- An id is put where it was not.
pub Queued-cons :
    (all : List Bytes) (ui after : Ui) (id : Bytes)
    → Queued all ui
    → mem id ui.queued ≡ false
    → has_row id ui.rows ≡ true
    → after.queued ≡ id ∷ ui.queued
    → after.rows ≡ update_row id set_pending ui.rows
    → Queued all after
Queued-cons all ui after id q new there e r = record {
  once = λ a. subst (λ xs. count a xs ≤ 1) (sym e) (once a);
  known = λ a. subst (λ xs. 0 < count a xs → mem a all ≡ true) (sym e) (known a);
  rows_kept = ap row_ids r ∙ update_row-row_ids id set_pending ui.rows (λ _. refl) ∙ q.rows_kept;
}
  where
    once : (a : Bytes) → count a (id ∷ ui.queued) ≤ 1
    once a = elim (Bool-cases (equal a id)) [
      | inl k ↦
          let same : a ≡ id = (equal_iff a id).0 k in
          rw k (omega (arith, mem-false a ui.queued (ap (λ b. mem b ui.queued) same ∙ new)))
      | inr k ↦ rw k (omega (arith, q.once a))
    ]

    known : (a : Bytes) → 0 < count a (id ∷ ui.queued) → mem a all ≡ true
    known a h = elim (Bool-cases (equal a id)) [
      | inl k ↦
          ap (λ b. mem b all) ((equal_iff a id).0 k)
          ∙ sym (ap (mem id) q.rows_kept)
          ∙ sym (has_row-mem id ui.rows)
          ∙ there
      | inr k ↦ q.known a (omega (arith, h, ap one_if k))
    ]

pub Queued-same :
    (all : List Bytes) (ui after : Ui) → Queued all ui → SameRows ui after → Queued all after
Queued-same all ui after q (e, r) = record {
  once = λ a. subst (λ xs. count a xs ≤ 1) (sym e) (q.once a);
  known = λ a. subst (λ xs. 0 < count a xs → mem a all ≡ true) (sym e) (q.known a);
  rows_kept = ap row_ids r ∙ q.rows_kept;
}

store_result-queued :
    (now : ℕ) (res : FetchResult) (ui : Ui) → (store_result now res ui).queued ≡ ui.queued
unfolding store_result
store_result-queued now res ui = elim (Option-cases res.err) [
  | inl e ↦ ground (arith, e)
  | inr (msg, e) ↦ ground (arith, e)
]

store_result-row_ids :
    (now : ℕ) (res : FetchResult) (ui : Ui)
    → row_ids (store_result now res ui).rows ≡ row_ids ui.rows
unfolding store_result
store_result-row_ids now res ui = elim (Option-cases res.err) [
  | inl e ↦
      let rows : List Row = update_row res.ext_ver_id (set_fetched (cached_of now res)) ui.rows in
      ground (
        arith,
        e,
        rebuild_predictions-row_ids rows,
        update_row-row_ids res.ext_ver_id (set_fetched (cached_of now res)) ui.rows (λ _. refl),
      )
  | inr (msg, e) ↦
      ground (arith, e, update_row-row_ids res.ext_ver_id (set_error msg) ui.rows (λ _. refl))
]

pub apply_result-queued :
    (now : ℕ) (res : FetchResult) (ui : Ui)
    → (apply_result now res ui).queued ≡ delete res.ext_ver_id ui.queued
unfolding apply_result
apply_result-queued now res ui =
    let fewer : Ui = record ui { queued = delete res.ext_ver_id ui.queued } in
    ground (arith, store_result-queued now res fewer)

apply_result-row_ids :
    (now : ℕ) (res : FetchResult) (ui : Ui)
    → row_ids (apply_result now res ui).rows ≡ row_ids ui.rows
unfolding apply_result
apply_result-row_ids now res ui =
    let fewer : Ui = record ui { queued = delete res.ext_ver_id ui.queued } in
    ground (arith, store_result-row_ids now res fewer)

-- An id deleted is in the set no more; the others stay as they were.
count-delete : (a b : Bytes) (xs : List Bytes) → count a (delete b xs) ≤ count a xs
count-delete a b xs = elim (Bool-cases (equal a b)) [
  | inl e ↦
      let same : a ≡ b = (equal_iff a b).0 e in
      subst (λ c. count a (delete c xs) ≤ count a xs) same (omega (arith, count-delete_same a xs))
  | inr e ↦ omega (arith, count-delete_other a b xs e)
]

pub Queued-apply :
    (all : List Bytes) (now : ℕ) (res : FetchResult) (ui : Ui)
    → Queued all ui
    → Queued all (apply_result now res ui)
Queued-apply all now res ui q =
    let e : (apply_result now res ui).queued ≡ delete res.ext_ver_id ui.queued =
      apply_result-queued now res ui in
    let less : (a : Bytes) → count a (apply_result now res ui).queued ≤ count a ui.queued = λ a.
      subst (λ xs. count a xs ≤ count a ui.queued) (sym e)
        (count-delete a res.ext_ver_id ui.queued) in
    record {
      once = λ a. omega (arith, less a, q.once a);
      known = λ a h. q.known a (omega (arith, less a));
      rows_kept = apply_result-row_ids now res ui ∙ q.rows_kept;
    }

-- A result that is applied was the only copy of its id.
pub tracked-apply :
    (a : Bytes) (res : FetchResult) (ui : Ui) (now others : ℕ)
    → (a ≡ res.ext_ver_id → count a ui.queued ≤ 1)
    → others + one_if (equal a res.ext_ver_id) ≡ count a ui.queued
    → others ≡ count a (apply_result now res ui).queued
tracked-apply a res ui now others once h =
    subst (λ xs. others ≡ count a xs) (sym (apply_result-queued now res ui))
      (elim (Bool-cases (equal a res.ext_ver_id)) [
        | inl e ↦
            let same : a ≡ res.ext_ver_id = (equal_iff a res.ext_ver_id).0 e in
            let gone : count a (delete res.ext_ver_id ui.queued) ≡ 0 =
              subst (λ c. count a (delete c ui.queued) ≡ 0) same (count-delete_same a ui.queued) in
            ground (arith, e, h, once same, gone)
        | inr e ↦ ground (arith, e, h, count-delete_other a res.ext_ver_id ui.queued e)
      ])
