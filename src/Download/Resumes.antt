-- ===== src/Download/Resumes.antt =====
-- A file that is fetched in pieces is a part of the server's file at every time, and the whole of it
-- once a fetch succeeds.
use ipadecrypt.Download.Copies.{IsPrefix, Resumes, copy_start, copy_rest}
use ipadecrypt.Download.{
  FetchError, seek_failed, request_failed, fetch_failed, truncate_failed, bad_status, Response,
  Server, FetchFaults, stopped, existing, seek_and_copy, start_over, receive, request_rest,
  fetch_to_file,
}
use ipadecrypt.Prelude.{
  ℕ, ◌<◌, ◌≡◌, ◌≢◌, refl, sym, subst, arith, Bool, true, false, ◌&&◌, Bool-cases, inl, inr, Option,
  none, some, Option-cases, [], length, drop, ltb, ◌==◌, if◌then◌else◌, Bytes,
}

-- What the program relies on: a whole answer is the file, and a partial one is the rest of it.
pub record Serves (server : Server) (data_bytes : Bytes) : Type 0 where
  pub whole : (k : ℕ) → (server k).status ≡ 200 → (server k).body ≡ data_bytes
  pub rest : (k : ℕ) → 0 < k → (server k).status ≡ 206 → (server k).body ≡ drop k data_bytes

stopped-Resumes :
    (f data_bytes : Bytes) (e : FetchError)
    → IsPrefix f data_bytes
    → Resumes data_bytes (stopped f e)
stopped-Resumes f data_bytes e h = (h, λ k. cc)

seek_rest :
    (faults : FetchFaults) (f data_bytes : Bytes)
    → IsPrefix f data_bytes
    → Resumes data_bytes (seek_and_copy faults f (length f) (drop (length f) data_bytes))
unfolding seek_and_copy
seek_rest faults f data_bytes h = elim (Option-cases faults.seek) [
  | inl e ↦ rw e (copy_rest faults.cut f data_bytes h)
  | inr (x, e) ↦ rw e (stopped-Resumes f data_bytes (seek_failed x) h)
]

seek_start :
    (faults : FetchFaults) (data_bytes : Bytes)
    → Resumes data_bytes (seek_and_copy faults [] 0 data_bytes)
unfolding seek_and_copy
seek_start faults data_bytes = elim (Option-cases faults.seek) [
  | inl e ↦ rw e (copy_start faults.cut [] data_bytes (data_bytes, refl))
  | inr (x, e) ↦ rw e (stopped-Resumes [] data_bytes (seek_failed x) (data_bytes, refl))
]

start_over-Resumes :
    (faults : FetchFaults) (f data_bytes : Bytes)
    → IsPrefix f data_bytes
    → Resumes data_bytes (start_over faults f data_bytes)
unfolding start_over seek_and_copy
start_over-Resumes faults f data_bytes h = elim (Option-cases faults.truncate) [
  | inl e ↦ rw e (seek_start faults data_bytes)
  | inr (x, e) ↦ rw e (stopped-Resumes f data_bytes (truncate_failed x) h)
]

-- The answer to a request from the file's end on, or from the start.
receive-Resumes :
    (faults : FetchFaults) (server : Server) (f data_bytes : Bytes) (k : ℕ)
    → Serves server data_bytes
    → IsPrefix f data_bytes
    → (0 < k → k ≡ length f)
    → Resumes data_bytes (receive faults f k (server k))
unfolding receive
receive-Resumes faults server f data_bytes k serves h at_end =
    elim (Bool-cases (ltb 0 k && (server k).status == 206)) [
      | inl partial ↦
          let positive : 0 < k = ground (arith, partial) in
          let status : (server k).status ≡ 206 = ground (arith, partial) in
          rw (partial, serves.rest k positive status)
            (subst (λ n. Resumes data_bytes (seek_and_copy faults f n (drop n data_bytes)))
              (sym (at_end positive)) (seek_rest faults f data_bytes h))
      | inr other ↦ elim (Bool-cases ((server k).status == 200)) [
        | inl ok ↦
            let status : (server k).status ≡ 200 = ground (arith, ok) in
            elim (Bool-cases (ltb 0 k)) [
              | inl some_part ↦
                  rw (other, ok, some_part, serves.whole k status)
                    (start_over-Resumes faults f data_bytes h)
              | inr no_part ↦
                  rw (other, ok, no_part, serves.whole k status)
                    (copy_start faults.cut f data_bytes h)
            ]
        | inr bad ↦ rw (other, bad) (stopped-Resumes f data_bytes (bad_status (server k).status) h)
      ]
    ]

request_rest-Resumes :
    (faults : FetchFaults) (server : Server) (f data_bytes : Bytes)
    → Serves server data_bytes
    → IsPrefix f data_bytes
    → Resumes data_bytes (request_rest faults server f)
unfolding request_rest receive seek_and_copy start_over
request_rest-Resumes faults server f data_bytes serves h =
    let k : ℕ = if faults.stat_fails then 0 else length f in
    elim (Option-cases faults.request) [
      | inr (x, e) ↦ rw e (stopped-Resumes f data_bytes (request_failed x) h)
      | inl e ↦ elim (Option-cases faults.send) [
        | inr (x, e') ↦ rw (e, e') (stopped-Resumes f data_bytes (fetch_failed x) h)
        | inl e' ↦
            rw (e, e')
              (receive-Resumes faults server f data_bytes k serves h
                (from_end faults.stat_fails (length f)))
      ]
    ]
  where
    from_end : (b : Bool) (n : ℕ) → 0 < (if b then 0 else n) → (if b then 0 else n) ≡ n
    from_end true n h = absurd (omega arith)
    from_end false n h = refl

-- A fetch leaves the first bytes of the server's file in the temporary file, wherever it fails and
-- however often it broke off before, and all of them where it returns no error: neither a resumed
-- transfer nor one that is started over mixes up what was there, provided that a whole answer is
-- the server's file and a partial one is its rest from the asked byte on.
pub fetch_to_file-Resumes :
    (faults : FetchFaults) (server : Server) (tmp : Option Bytes) (data_bytes : Bytes)
    → Serves server data_bytes
    → IsPrefix (existing tmp) data_bytes
    → Resumes data_bytes (fetch_to_file faults server tmp)
unfolding fetch_to_file request_rest receive seek_and_copy start_over
fetch_to_file-Resumes faults server tmp data_bytes serves h = elim (Option-cases faults.open_file) [
  | inl e ↦ rw e (request_rest-Resumes faults server (existing tmp) data_bytes serves h)
  | inr (x, e) ↦ rw e (h, λ k. cc)
]

receive_unsatisfied :
    (faults : FetchFaults) (f : Bytes) (res : Response)
    → res.status ≡ 416
    → receive faults f (length f) res ≡ stopped f (bad_status 416)
unfolding receive
receive_unsatisfied faults f res status = ground (arith, status)

request_rest_stuck :
    (faults : FetchFaults) (server : Server) (f : Bytes)
    → (server (length f)).status ≡ 416
    → faults.stat_fails ≡ false
    → (e : FetchError) × (request_rest faults server f ≡ stopped f e)
unfolding request_rest
request_rest_stuck faults server f status sized = elim (Option-cases faults.request) [
  | inr (x, e) ↦ (request_failed x, ground (arith, e))
  | inl e ↦ elim (Option-cases faults.send) [
    | inr (x, e') ↦ (fetch_failed x, ground (arith, e, e'))
    | inl e' ↦ (
      bad_status 416,
      ground (arith, e, e', sized, receive_unsatisfied faults f (server (length f)) status),
    )
  ]
]

-- A temporary file that is whole already is never accepted: where the server answers 416 to a range
-- behind the file's end and the file's size can be read, the fetch fails and leaves the file, so
-- that every further try fails as well.
pub fetch_to_file-stays_stuck :
    (faults : FetchFaults) (server : Server) (data_bytes : Bytes)
    → (server (length data_bytes)).status ≡ 416
    → faults.stat_fails ≡ false
    → ((fetch_to_file faults server (some data_bytes)).file ≡ some data_bytes)
      × ((fetch_to_file faults server (some data_bytes)).error ≢ none)
unfolding fetch_to_file
fetch_to_file-stays_stuck faults server data_bytes status sized =
    elim (Option-cases faults.open_file) [
      | inr (x, e) ↦ (ground (arith, e), λ k. absurd (ground (arith, e, k)))
      | inl e ↦
          let stuck = request_rest_stuck faults server data_bytes status sized in
          (ground (arith, e, stuck.1), λ k. absurd (ground (arith, e, stuck.1, k)))
    ]
