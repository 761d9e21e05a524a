-- ===== src/MachO/Encryption/Correct.antt =====
-- `ReadEncryptionInfo` finds the first encryption command, and nothing else.
use ipadecrypt.MachO.Commands.{IsCommand, FirstAt, here, later}
use ipadecrypt.MachO.Encryption.{
  EncryptionInfo, read_fields, find_round, find_command, header_size, wanted, read_encryption_info,
}
use ipadecrypt.MachO.{
  Error, magic_le, magic64_le, is_thin_le, mach_header_truncated, not_thin_le,
  load_commands_truncated, load_cmd_truncated, encryption_info_truncated, bad_cmdsize,
}
use ipadecrypt.Outcome.{Outcome, ok, err, Returns}
use ipadecrypt.Prelude.{
  ◌≢◌, ℕ, zero, suc, ◌+◌, add64, ◌≤◌, ◌≡◌, ◌↔◌, refl, sym, ap, ◌∙◌, not, Bool, true, false, ◌||◌,
  arith, ltb, ◌==◌, if◌then◌else◌, length, Bool-cases, inl, inr,
}
use ipadecrypt.Slice.Laws.{IsSlice, word, word-lt, uint32_at-ok}
use ipadecrypt.Slice.{Slice, little}

-- What `ReadEncryptionInfo` reports of the command at `q`.
unfoldable pub fields : Slice → ℕ → EncryptionInfo
fields d q = record {
  cryptid_offset = q + 16;
  crypt_off = word little d (q + 8);
  crypt_size = word little d (q + 12);
  cryptid = word little d (q + 16);
}

read_fields_lem :
    (d : Slice) (p cmd_size : ℕ)
    → IsSlice d
    → p + cmd_size ≤ d.len
    → read_fields d p cmd_size
      ≡ (if ltb cmd_size 20 then err encryption_info_truncated else ok (fields d p))
unfolding read_fields fields
read_fields_lem d p cmd_size s fits = ground (
  arith,
  uint32_at-ok {E = Error} little d (p + 8),
  uint32_at-ok {E = Error} little d (p + 12),
  uint32_at-ok {E = Error} little d (p + 16),
)

-- One round of the loop, with the reads made.
abbrev round_result :
    Slice → ℕ → ℕ → (ℕ → Outcome Error EncryptionInfo) → Outcome Error EncryptionInfo
round_result d want p rest =
    let size = word little d (p + 4) in
    if ltb d.len (p + 8)
    then err load_cmd_truncated
    else if ltb size 8 || ltb d.len (p + size)
    then err (bad_cmdsize size)
    else if word little d p == want
    then (if ltb size 20 then err encryption_info_truncated else ok (fields d p))
    else rest (p + size)

find_round_lem :
    (d : Slice) (want p : ℕ) (rest : ℕ → Outcome Error EncryptionInfo)
    → IsSlice d
    → p ≤ d.len
    → find_round d want p rest ≡ round_result d want p rest
unfolding find_round
find_round_lem d want p rest s h =
    let plus8 : add64 p 8 ≡ p + 8 = omega (arith, s.within, s.counted) in
    let plus4 : add64 p 4 ≡ p + 4 = omega (arith, s.within, s.counted) in
    let next : add64 p (word little d (p + 4)) ≡ p + word little d (p + 4) =
      omega (arith, s.within, s.counted, word-lt little d (p + 4) s) in
    rw (plus8, plus4)
      (elim (Bool-cases (ltb d.len (p + 8))) [
        | inl cut ↦ rw cut
        | inr whole ↦
            rw
              (
                whole,
                uint32_at-ok little d p (ground (arith, s.within)),
                uint32_at-ok little d (p + 4) (ground (arith, s.within)),
                next,
              )
              (ground (arith, read_fields_lem d p (word little d (p + 4)) s, s.counted, s.within))
      ])

find_command_step :
    (d : Slice) (want n p : ℕ)
    → IsSlice d
    → p ≤ d.len
    → find_command d want (suc n) p ≡ round_result d want p (λ q. find_command d want n q)
unfolding find_command
find_command_step d want n p s h = find_round_lem d want p (λ q. find_command d want n q) s h

-- The command at `q` is the one that the loop stops at, and holds all the fields.
record Found (d : Slice) (want n p : ℕ) (info : EncryptionInfo) : Type 0 where
  at : ℕ
  first : FirstAt little d want at n p
  roomy : 20 ≤ word little d (at + 4)
  info_is : info ≡ fields d at

find_command_sound :
    (d : Slice) (want n p : ℕ) {info : EncryptionInfo}
    → IsSlice d
    → p ≤ d.len
    → find_command d want n p ≡ ok info
    → Found d want n p info
find_command_sound d want zero p s h e = unfold find_command in cc
find_command_sound d want (suc n) p {info} s h e = elim (Bool-cases (word little d p == want)) [
  | inl hit ↦ record {
    at = p;
    first = here refl command (ground arith);
    roomy = ground (arith, step, command);
    info_is = ground (arith, step, command);
  }
  | inr miss ↦
      let other : word little d p ≢ want = ground arith in
      let size_fits = command.size_fits in
      let rest : find_command d want n (p + word little d (p + 4)) ≡ ok info =
        ground (arith, step, command) in
      let f = find_command_sound d want n (p + word little d (p + 4)) s size_fits rest in
      record {
        at = f.at;
        first = later command other f.first;
        roomy = f.roomy;
        info_is = f.info_is;
      }
]
  where
    step : round_result d want p (λ q. find_command d want n q) ≡ ok info
    step = rw (find_command_step d want n p s h) at e

    command : IsCommand little d p
    command = ground (arith, step)

find_command_complete :
    {d : Slice} {want q n p : ℕ}
    → IsSlice d
    → FirstAt little d want q n p
    → 20 ≤ word little d (q + 4)
    → find_command d want n p ≡ ok (fields d q)
find_command_complete {d} {want} {q} s (here {n} {p} e c hit) roomy =
    let w = c.size_fits in
    rw (e) (find_command_step d want n q s (omega arith) ∙ ground (arith, hit, c))
find_command_complete {d} {want} {q} s (later {n} {p} c miss more) roomy =
    let w = c.size_fits in
    find_command_step d want n p s (omega arith)
    ∙ ground (arith, c, find_command_complete s more roomy)

find_command-Returns :
    (d : Slice) (want n p : ℕ) → IsSlice d → p ≤ d.len → Returns (find_command d want n p)
find_command-Returns d want zero p s h = unfold find_command in tt
find_command-Returns d want (suc n) p s h =
    rw (find_command_step d want n p s h)
      (ground (arith, find_command-Returns d want n (p + word little d (p + 4)) s))

-- The encryption command of a thin little-endian Mach-O file, described by the file alone.
pub record HasInfo (d : Slice) (info : EncryptionInfo) : Type 0 where
  pub is64 : Bool
  pub magic : word little d 0 ≡ (if is64 then magic64_le else magic_le)
  pub header_fits : 28 ≤ d.len
  pub commands_fit : header_size is64 + word little d 20 ≤ d.len
  pub at : ℕ
  pub first : FirstAt little d (wanted is64) at (word little d 16) (header_size is64)
  pub roomy : 20 ≤ word little d (at + 4)
  pub info_is : info ≡ fields d at

-- `ReadEncryptionInfo` with the header's reads made.
read_encryption_info_lem :
    (d : Slice)
    → IsSlice d
    → read_encryption_info d ≡ (
        let is64 = word little d 0 == magic64_le in
        if ltb d.len 28
        then err mach_header_truncated
        else if not (is_thin_le (word little d 0))
        then err (not_thin_le (word little d 0))
        else if ltb d.len (header_size is64 + word little d 20)
        then err load_commands_truncated
        else find_command d (wanted is64) (word little d 16) (header_size is64))
unfolding read_encryption_info
read_encryption_info_lem d s = elim (Bool-cases (ltb d.len 28)) [
  | inl cut ↦ rw cut
  | inr whole ↦
      let inside : 28 ≤ length d.mem = ground (arith, s.within) in
      rw
        (
          whole,
          uint32_at-ok little d 0 (omega arith),
          uint32_at-ok little d 16 (omega arith),
          uint32_at-ok little d 20 (omega arith),
        )
        (ground (arith, word-lt little d 20 s))
]

reads_found :
    {d : Slice} {at : ℕ} (is64 : Bool)
    → IsSlice d
    → word little d 0 ≡ (if is64 then magic64_le else magic_le)
    → 28 ≤ d.len
    → header_size is64 + word little d 20 ≤ d.len
    → FirstAt little d (wanted is64) at (word little d 16) (header_size is64)
    → 20 ≤ word little d (at + 4)
    → read_encryption_info d ≡ ok (fields d at)
reads_found {d} true s magic header fits first roomy =
    read_encryption_info_lem d s ∙ rw magic (ground (arith, find_command_complete s first roomy))
reads_found {d} false s magic header fits first roomy =
    read_encryption_info_lem d s ∙ rw magic (ground (arith, find_command_complete s first roomy))

-- On a thin little-endian file `ReadEncryptionInfo` answers exactly with the first encryption
-- command of the file's kind, when that command and those before it are well formed.
pub read_encryption_info_iff :
    (d : Slice) (info : EncryptionInfo)
    → IsSlice d
    → (read_encryption_info d ≡ ok info) ↔ HasInfo d info
read_encryption_info_iff d info s = (sound, complete)
  where
    is64 : Bool
    is64 = word little d 0 == magic64_le

    sound : read_encryption_info d ≡ ok info → HasInfo d info
    sound e =
        let r = rw (read_encryption_info_lem d s) at e in
        let magic : word little d 0 ≡ (if is64 then magic64_le else magic_le) = ground arith in
        let header : 28 ≤ d.len = ground arith in
        let fits : header_size is64 + word little d 20 ≤ d.len = ground arith in
        let found : find_command d (wanted is64) (word little d 16) (header_size is64) ≡ ok info =
          ground arith in
        let start : header_size is64 ≤ d.len = omega arith in
        let f =
          find_command_sound d (wanted is64) (word little d 16) (header_size is64) s start found in
        record {
          is64 = is64;
          magic = magic;
          header_fits = header;
          commands_fit = fits;
          at = f.at;
          first = f.first;
          roomy = f.roomy;
          info_is = f.info_is;
        }

    complete : HasInfo d info → read_encryption_info d ≡ ok info
    complete h =
        reads_found h.is64 s h.magic h.header_fits h.commands_fit h.first h.roomy
        ∙ ap ok (sym h.info_is)

-- `ReadEncryptionInfo` never panics: it answers with a value or an error on every byte slice.
pub read_encryption_info-Returns : (d : Slice) → IsSlice d → Returns (read_encryption_info d)
read_encryption_info-Returns d s = rw (read_encryption_info_lem d s) (
    ground (
      arith,
      find_command-Returns d (wanted (word little d 0 == magic64_le)) (word little d 16)
          (header_size (word little d 0 == magic64_le)) s,
    ))
