-- ===== src/Config/Files.antt =====
-- What saving and loading leave in the file, and the keep policy's values.
use ipadecrypt.Config.{
  Config, keep_desktop, keep_device, keep_both, normalize_output_keep, Json, Disk, Faults, Done,
  done, failed, write_tmp, save, is_old, or_current, migrated, load_parsed, parse_file, load,
}
use ipadecrypt.Outcome.{ok}
use ipadecrypt.Prelude.Int.{ℤ, pos, negsuc}
use ipadecrypt.Prelude.Text.{equal}
use ipadecrypt.Prelude.{
  ◌≡◌, ◌⊎◌, inl, inr, refl, ap, ◌∙◌, Bool, true, false, arith, none, some, [], ◌∷◌, Bytes,
  Option-cases, Bool-cases,
}

-- A save that succeeds leaves the marshalled configuration and no temporary file; one that fails
-- leaves the file as it was.
abbrev pub Saves : Json → Disk → Config → Done Config → Type 0
Saves json disk c (done disk' c') = (json.marshal c ≡ disk'.file) × (disk'.tmp ≡ none) × (c' ≡ c)
Saves json disk c (failed disk' e) = disk'.file ≡ disk.file

-- Whatever fails, `Config.Save` replaces the file as a whole by the marshalled configuration, with
-- no temporary file left, or leaves it as it was.
pub save-Saves :
    (json : Json) (faults : Faults) (path : Bytes) (disk : Disk) (c : Config)
    → Saves json disk c (save json faults path disk c)
unfolding save write_tmp
save-Saves json faults [] disk c = refl
save-Saves json faults (p ∷ path) disk c = ground arith

or_current_settled : (v : ℤ) → or_current (or_current v) ≡ or_current v
or_current_settled (pos n) = ground arith
or_current_settled (negsuc n) = refl

save-eq-done :
    (json : Json) (faults : Faults) (path : Bytes) (disk disk' : Disk) (c c' : Config)
    → save json faults path disk c ≡ done disk' c'
    → (bs : Bytes) × (json.marshal c ≡ some bs) × (disk'.file ≡ some bs) × (c' ≡ c)
unfolding save write_tmp
save-eq-done json faults [] disk disk' c c' e = absurd (ground arith)
save-eq-done json faults (p ∷ path) disk disk' c c' e = elim (Option-cases (json.marshal c)) [
  | inl nothing ↦ absurd (ground (arith, nothing))
  | inr (bs, m) ↦ (bs, m, ground (arith, m), ground (arith, m))
]

-- One of the three policies.
abbrev pub IsPolicy : Bytes → Type 0
IsPolicy keep = (keep ≡ keep_both) ⊎ (keep ≡ keep_desktop) ⊎ (keep ≡ keep_device)

normalize_output_keep-IsPolicy :
    (value keep : Bytes) → normalize_output_keep value ≡ ok keep → IsPolicy keep
unfolding normalize_output_keep
normalize_output_keep-IsPolicy value keep e = ground arith

policy_stays : (keep : Bytes) → IsPolicy keep → normalize_output_keep keep ≡ ok keep
unfolding normalize_output_keep equal
policy_stays keep (inl both) = rw both refl
policy_stays keep (inr (inl desktop)) = rw desktop refl
policy_stays keep (inr (inr device)) = rw device refl

-- `NormalizeOutputKeep` answers with one of the three policies, and leaves its own answers alone.
pub normalize_output_keep_idem :
    (value keep : Bytes)
    → normalize_output_keep value ≡ ok keep
    → IsPolicy keep × (normalize_output_keep keep ≡ ok keep)
normalize_output_keep_idem value keep e =
    let policy = normalize_output_keep-IsPolicy value keep e in (policy, policy_stays keep policy)

-- A load with `persist` that ends with no error, by the file it has read.
load_parsed-eq-done :
    (json : Json) (faults : Faults) (path : Bytes) (disk disk' : Disk) (bs : Bytes) (c r : Config)
    → load_parsed json faults path true disk bs c ≡ done disk' r
    → ((is_old c.version ≡ false) × (disk' ≡ disk) × (r ≡ c))
      ⊎ ((new : Bytes) × (json.marshal r ≡ some new)
          × (disk'.file ≡ some new)
          × (r ≡ migrated json bs c))
unfolding load_parsed
load_parsed-eq-done json faults path disk disk' bs c r e = elim (Bool-cases (is_old c.version)) [
  | inr new ↦ inl (new, ground arith, ground arith)
  | inl old ↦
      let saved : save json faults path disk (migrated json bs c) ≡ done disk' r = ground arith in
      let (new, m, here, same) =
        save-eq-done json faults path disk disk' (migrated json bs c) r saved in
      inr (new, rw same m, here, same)
]

load_new :
    (json : Json) (faults : Faults) (path : Bytes) (persist : Bool) (disk : Disk) (bs : Bytes)
    (c : Config)
    → faults.read ≡ none
    → disk.file ≡ some bs
    → json.unmarshal bs ≡ some c
    → load json faults path persist disk
      ≡ load_parsed json faults path persist disk bs (record c { version = or_current c.version })
unfolding load parse_file
load_new json faults path persist disk bs c r here parsed = ground (arith, r, here, parsed)

-- The file that a load that succeeds has read.
load-eq-done :
    (json : Json) (faults : Faults) (path : Bytes) (persist : Bool) (disk disk' : Disk) (r : Config)
    → load json faults path persist disk ≡ done disk' r
    → (bs : Bytes) × (c : Config) × (disk.file ≡ some bs)
      × (json.unmarshal bs ≡ some c)
      × (load_parsed json faults path persist disk bs (record c { version = or_current c.version })
          ≡ done disk' r)
unfolding load parse_file
load-eq-done json faults path persist disk disk' r e = elim (Option-cases disk.file) [
  | inl nothing ↦ absurd (ground (arith, nothing))
  | inr (bs, here) ↦ elim (Option-cases (json.unmarshal bs)) [
    | inl nothing ↦ absurd (ground (arith, here, nothing))
    | inr (c, parsed) ↦ (bs, c, here, parsed, ground (arith, here, parsed))
  ]
]

-- A configuration that `Load` has returned, and migrated and saved where it was old, is the one that
-- `LoadReadOnly` reads afterwards, where reading the file does not fail; this where the parser
-- gives the returned configuration back from its marshalled form.
pub load-load :
    (json : Json) (faults again : Faults) (path : Bytes) (disk disk' : Disk) (c : Config)
    → ((bs : Bytes) → json.marshal c ≡ some bs → json.unmarshal bs ≡ some c)
    → load json faults path true disk ≡ done disk' c
    → again.read ≡ none
    → load json again path false disk' ≡ done disk' c
unfolding load_parsed migrated
load-load json faults again path disk disk' c round e r =
    let (bs, c0, here, parsed, rest) = load-eq-done json faults path true disk disk' c e in
    let settled = record c0 { version = or_current c0.version } in
    elim (load_parsed-eq-done json faults path disk disk' bs settled c rest) [
      | inl (new, same_disk, same) ↦
          rw same_disk
            (load_new json again path false disk bs c0 r here parsed ∙ ground (arith, new, same))
      | inr (bs', m, there, same) ↦
          let current : c.version ≡ pos 2 = ap (λ (x : Config). x.version) same in
          load_new json again path false disk' bs' c r there (round bs' m) ∙ ground (arith, current)
    ]
