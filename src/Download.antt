-- ===== src/Download.antt =====
-- internal/appstore/download.go: `fetchToFile`, which goes on with a file that was fetched in part.
-- The server is a parameter. The progress that is told is left out.
pub mod Copies
pub mod Resumes
pub mod Package
use ipadecrypt.Pipeline.Archive.{IoError}
use ipadecrypt.Prelude.{
  ℕ, ◌+◌, Bool, true, false, ◌&&◌, Option, none, some, List, [], ◌∷◌, ◌++◌, ltb, ◌==◌,
  if◌then◌else◌, length, take, drop, Bytes,
}

pub data FetchError : Type 0 where
  open_failed request_failed fetch_failed seek_failed truncate_failed write_failed :
      IoError → FetchError
  bad_status : ℕ → FetchError

pub record Response : Type 0 where
  pub status : ℕ
  pub body : Bytes

-- The answer to a request from some byte on; 0 is a request without a range.
abbrev pub Server : Type 0
Server = ℕ → Response

-- Where calls fail. A transfer that is `cut` breaks off behind that many bytes.
pub record FetchFaults : Type 0 where
  pub open_file : Option IoError
  pub stat_fails : Bool
  pub request : Option IoError
  pub send : Option IoError
  pub seek : Option IoError
  pub truncate : Option IoError
  pub cut : Option (ℕ × IoError)

-- The file behind the call, and its error.
pub record Fetched : Type 0 where
  pub file : Option Bytes
  pub error : Option FetchError

abbrev pub stopped : Bytes → FetchError → Fetched
stopped file e = record { file = some file; error = some e }

-- What a file holds once it is opened with O_CREATE.
abbrev pub existing : Option Bytes → Bytes
existing none = []
existing (some bs) = bs

-- The file with bytes written over it from an offset inside it on.
unfoldable pub write_at : ℕ → Bytes → Bytes → Bytes
write_at off bs file = take off file ++ (bs ++ drop (off + length bs) file)

-- `io.Copy`.
unfoldable pub copy_body : Option (ℕ × IoError) → Bytes → ℕ → Bytes → Fetched
copy_body none file off body = record { file = some (write_at off body file); error = none }
copy_body (some (n, e)) file off body = stopped (write_at off (take n body) file) (write_failed e)

-- `f.Seek`, then the copy.
unfoldable pub seek_and_copy : FetchFaults → Bytes → ℕ → Bytes → Fetched
seek_and_copy faults file off body = elim faults.seek [
  | some e ↦ stopped file (seek_failed e)
  | none ↦ copy_body faults.cut file off body
]

-- The whole file is sent though a part of it is there.
unfoldable pub start_over : FetchFaults → Bytes → Bytes → Fetched
start_over faults file body = elim faults.truncate [
  | some e ↦ stopped file (truncate_failed e)
  | none ↦ seek_and_copy faults [] 0 body
]

-- The `switch` on the status.
unfoldable pub receive : FetchFaults → Bytes → ℕ → Response → Fetched
receive faults file resume_from res =
    if ltb 0 resume_from && res.status == 206
    then seek_and_copy faults file resume_from res.body
    else if res.status == 200
    then if ltb 0 resume_from
      then start_over faults file res.body
      else copy_body faults.cut file 0 res.body
    else stopped file (bad_status res.status)

-- The request, for a file that is open.
unfoldable pub request_rest : FetchFaults → Server → Bytes → Fetched
request_rest faults server file =
    let resume_from = if faults.stat_fails then 0 else length file in
    elim faults.request [
      | some e ↦ stopped file (request_failed e)
      | none ↦ elim faults.send [
        | some e ↦ stopped file (fetch_failed e)
        | none ↦ receive faults file resume_from (server resume_from)
      ]
    ]

unfoldable pub fetch_to_file : FetchFaults → Server → Option Bytes → Fetched
fetch_to_file faults server tmp = elim faults.open_file [
  | some e ↦ record { file = tmp; error = some (open_failed e) }
  | none ↦ request_rest faults server (existing tmp)
]
