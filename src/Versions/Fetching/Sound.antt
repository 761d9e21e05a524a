-- ===== src/Versions/Fetching/Sound.antt =====
-- Every step keeps the account of the queued ids.
use ipadecrypt.Prelude.Text.Laws.{equal_refl}
use ipadecrypt.Prelude.{
  ℕ, zero, suc, ◌+◌, ◌≤◌, ◌≡◌, refl, ap, ◌∙◌, sym, arith, true, Bool-cases, inl, inr, List, [], ◌∷◌,
  length, length-append, All, Bytes,
}
use ipadecrypt.Versions.Fetching.{
  State, is_unfetched, add_sent, eager_row, eager_fetch, start, Works, sent, taken, answered,
  delivered, applied, Step, worked, pressed, Reachable, started, stepped,
}
use ipadecrypt.Versions.Fetching.Flight.{
  ids, ids-append, outgoing_ids, places, Queued, Sound, Queued-cons, Queued-same, Queued-apply,
  tracked-apply,
}
use ipadecrypt.Versions.Keys.Sends.{Effect, handle_input-Effect}
use ipadecrypt.Versions.Keys.{Handled, handle_input}
use ipadecrypt.Versions.Rows.{Row}
use ipadecrypt.Versions.Screen.{Ui, mem, has_row, update_row, set_pending, enqueue}
use ipadecrypt.Versions.Tally.{count, count-append, row_ids, has_row-mem}

pub Works-Sound : (all : List Bytes) (s t : State) → Works s t → Sound all s → Sound all t
Works-Sound all s t (sent {id} e room) g = record {
  queued = g.queued;
  tracked = λ a.
      omega (
        arith,
        g.tracked a,
        ap (λ o. count a (outgoing_ids o)) e,
        count-append a s.queue (id ∷ []),
      );
  queue_room = omega (arith, room, length-append s.queue (id ∷ []));
  worker_room = g.worker_room;
  result_room = g.result_room;
}
Works-Sound all s t (taken {id} {more} e room) g = record {
  queued = g.queued;
  tracked = λ a. omega (arith, g.tracked a, ap (count a) e);
  queue_room = omega (arith, g.queue_room, ap length e);
  worker_room = omega (arith, room);
  result_room = g.result_room;
}
Works-Sound all s t (answered res before after e) g = record {
  queued = g.queued;
  tracked = λ a. omega (
    arith,
    g.tracked a,
    ap (count a) e,
    count-append a before (res.ext_ver_id ∷ after),
    count-append a before after,
  );
  queue_room = g.queue_room;
  worker_room = omega (
    arith,
    g.worker_room,
    ap length e,
    length-append before (res.ext_ver_id ∷ after),
    length-append before after,
  );
  result_room = g.result_room;
}
Works-Sound all s t (delivered res before after e room) g = record {
  queued = g.queued;
  tracked = λ a. omega (
    arith,
    g.tracked a,
    ap (λ rs. count a (ids rs)) e,
    ap (count a) (ids-append before (res ∷ after)),
    ap (count a) (ids-append before after),
    ap (count a) (ids-append s.results (res ∷ [])),
    count-append a (ids before) (res.ext_ver_id ∷ ids after),
    count-append a (ids before) (ids after),
    count-append a (ids s.results) (res.ext_ver_id ∷ []),
  );
  queue_room = g.queue_room;
  worker_room = omega (
    arith,
    g.worker_room,
    ap length e,
    length-append before (res ∷ after),
    length-append before after,
  );
  result_room = omega (arith, room, length-append s.results (res ∷ []));
}
Works-Sound all s t (applied {res} {more} now e r) g = record {
  queued = Queued-apply all now res s.ui g.queued;
  tracked = λ a.
      tracked-apply a res s.ui now (places a t) (λ _. g.queued.once a)
        (omega (arith, g.tracked a, ap (λ rs. count a (ids rs)) r));
  queue_room = g.queue_room;
  worker_room = g.worker_room;
  result_room = omega (arith, g.result_room, ap length r);
}

Step-Sound : (all : List Bytes) (s t : State) → Step s t → Sound all s → Sound all t
Step-Sound all s t (worked w) g = Works-Sound all s t w g
Step-Sound all s t (pressed height buf stays idle) g =
    pressed_effect (handle_input-Effect height buf s.ui)
  where
    h : Handled
    h = handle_input height buf s.ui

    pressed_effect : Effect s.ui h → Sound all t
    pressed_effect (inl (e, same)) = record {
      queued = Queued-same all s.ui h.ui g.queued same;
      tracked = λ a. omega (
        arith,
        g.tracked a,
        ap (λ o. count a (outgoing_ids o)) idle,
        ap (λ o. count a (outgoing_ids o)) e,
        ap (count a) same.0,
      );
      queue_room = g.queue_room;
      worker_room = g.worker_room;
      result_room = g.result_room;
    }
    pressed_effect (inr (id, e)) = record {
      queued =
          Queued-cons all s.ui h.ui id g.queued e.not_queued e.in_table e.then_queued
            e.then_pending;
      tracked = λ a. omega (
        arith,
        g.tracked a,
        ap (λ o. count a (outgoing_ids o)) idle,
        ap (λ o. count a (outgoing_ids o)) e.sends,
        ap (count a) e.then_queued,
      );
      queue_room = g.queue_room;
      worker_room = g.worker_room;
      result_room = g.result_room;
    }

-- The first ids, which the queue has room for.
record Begun (all : List Bytes) (n : ℕ) (e : Ui × List Bytes) : Type 0 where
  table : Queued all e.0
  in_queue : (a : Bytes) → count a e.1 ≡ count a e.0.queued
  few : length e.1 + n ≤ 3

enqueue-Begun :
    (all : List Bytes) (n : ℕ) (id : Bytes) (ui : Ui) (queue : List Bytes)
    → mem id all ≡ true
    → Begun all (suc n) (ui, queue)
    → Begun all n (let e = enqueue id ui in (e.0, add_sent e.1 queue))
unfolding enqueue
enqueue-Begun all n id ui queue there b = elim (Bool-cases (mem id ui.queued)) [
  | inl k ↦ rw k (record { table = b.table; in_queue = b.in_queue; few = omega (arith, b.few) })
  | inr k ↦
      let after : Ui = record ui {
        queued = id ∷ ui.queued;
        rows = update_row id set_pending ui.rows;
      } in
      let in_rows : has_row id ui.rows ≡ true =
        has_row-mem id ui.rows ∙ ap (mem id) b.table.rows_kept ∙ there in
      rw k (record {
        table = Queued-cons all ui after id b.table k in_rows refl refl;
        in_queue = λ a. omega (arith, b.in_queue a, count-append a queue (id ∷ []));
        few = omega (arith, b.few, length-append queue (id ∷ []));
      })
]

eager_row-Begun :
    (all : List Bytes) (n : ℕ) (r : Row) (ui : Ui) (queue : List Bytes)
    → mem r.ext_ver_id all ≡ true
    → Begun all (suc n) (ui, queue)
    → Begun all n (eager_row r (ui, queue))
unfolding eager_row
eager_row-Begun all n r ui queue there b = elim (Bool-cases (is_unfetched r.state)) [
  | inl k ↦ rw k (enqueue-Begun all n r.ext_ver_id ui queue there b)
  | inr k ↦ rw k (record { table = b.table; in_queue = b.in_queue; few = omega (arith, b.few) })
]

eager_fetch-Begun :
    (all : List Bytes) (n : ℕ) (rows : List Row) (e : Ui × List Bytes)
    → All (λ r. mem r.ext_ver_id all ≡ true) rows
    → Begun all n e
    → Begun all 0 (eager_fetch n rows e)
unfolding eager_fetch
eager_fetch-Begun all zero rows e h b = b
eager_fetch-Begun all (suc n) [] e h b = record {
  table = b.table;
  in_queue = b.in_queue;
  few = omega (arith, b.few);
}
eager_fetch-Begun all (suc n) (r ∷ rows) (ui, queue) (h, hs) b =
    eager_fetch-Begun all n rows (eager_row r (ui, queue)) hs (eager_row-Begun all n r ui queue h b)

all_known :
    (all : List Bytes) (rows : List Row)
    → ((a : Bytes) → mem a (row_ids rows) ≡ true → mem a all ≡ true)
    → All (λ r. mem r.ext_ver_id all ≡ true) rows
unfolding mem
all_known all [] h = tt
all_known all (r ∷ rows) h = (
  h r.ext_ver_id (ground (arith, equal_refl r.ext_ver_id)),
  all_known all rows (λ a k. h a (ground (arith, k))),
)

start-Sound : (ui : Ui) → ui.queued ≡ [] → Sound (row_ids ui.rows) (start ui)
unfolding start
start-Sound ui e =
    let all : List Bytes = row_ids ui.rows in
    let none_queued : (a : Bytes) → count a ui.queued ≡ 0 = λ a. ap (count a) e in
    let first : Begun all 3 (ui, []) = record {
      table = record {
        once = λ a. omega (arith, none_queued a);
        known = λ a h. absurd (omega (arith, none_queued a));
        rows_kept = refl;
      };
      in_queue = λ a. sym (none_queued a);
      few = omega arith;
    } in
    let b : Begun all 0 (eager_fetch 3 ui.rows (ui, [])) =
      eager_fetch-Begun all 3 ui.rows (ui, []) (all_known all ui.rows (λ a k. k)) first in
    record {
      queued = b.table;
      tracked = λ a. omega (arith, b.in_queue a);
      queue_room = omega (arith, b.few);
      worker_room = omega arith;
      result_room = omega arith;
    }

-- Every state that is reached is sound.
pub Reachable-Sound :
    (ui : Ui) (s : State) → ui.queued ≡ [] → Reachable ui s → Sound (row_ids ui.rows) s
Reachable-Sound ui s e started = start-Sound ui e
Reachable-Sound ui s e (stepped {s = r} h step) =
    Step-Sound (row_ids ui.rows) r s step (Reachable-Sound ui r e h)
