-- ===== src/Pipeline/Assemble/Succeeds.antt =====
-- `Assemble` succeeds where no call fails.
use ipadecrypt.Outcome.{ok}
use ipadecrypt.Pipeline.Archive.{readable, Entry, archive, read_all}
use ipadecrypt.Pipeline.Assemble.Exact.{substituted, substituted_names, forwarded}
use ipadecrypt.Pipeline.Assemble.{
  Substitute, OutEntry, created, raw, Faults, write, fill, copy_rest, close_writer, assemble,
}
use ipadecrypt.Pipeline.Paths.{is_excluded_ipa_entry}
use ipadecrypt.Prelude.{
  ◌≡◌, arith, none, List, [], ◌∷◌, ◌++◌, Bytes, All, Bool-cases, inl, inr, append-nil, append_assoc,
}

-- No call of the zip writer fails.
pub record NoFaults (faults : Faults) : Type 0 where
  pub create : (name : Bytes) → faults.create name ≡ none
  pub copy : (f : Entry) → faults.copy f ≡ none
  pub close : faults.close ≡ none

-- A substitute can be read to its end.
abbrev pub IsReadable : Substitute → Type 0
IsReadable s = (bs : Bytes) × (s.content ≡ readable bs)

fill_succeeds :
    (faults : Faults) (out : List OutEntry) (names : List Bytes) (subs : List Substitute)
    → NoFaults faults
    → All IsReadable subs
    → fill faults (record { out = out; written = names }) subs
      ≡ ok (record { out = out ++ substituted subs; written = substituted_names names subs })
unfolding fill write substituted substituted_names read_all
fill_succeeds faults out names [] n r = rw append-nil (ground arith)
fill_succeeds faults out names (s ∷ subs) n ((bs, read), r) =
    let entry = created s.name bs in
    elim (Bool-cases (is_excluded_ipa_entry s.name)) [
      | inl excluded ↦ rw (excluded, read) (fill_succeeds faults out names subs n r)
      | inr included ↦
          rw (included, n.create s.name, read)
            (ground (
              arith,
              fill_succeeds faults (out ++ entry ∷ []) (s.name ∷ names) subs n r,
              append_assoc out (entry ∷ []) (substituted subs),
            ))
    ]

copy_rest_succeeds :
    (faults : Faults) (names : List Bytes) (out : List OutEntry) (fs : List Entry)
    → NoFaults faults
    → copy_rest faults names out fs ≡ ok (out ++ forwarded names fs)
unfolding copy_rest forwarded
copy_rest_succeeds faults names out [] n = rw append-nil (ground arith)
copy_rest_succeeds faults names out (f ∷ fs) n = rw (n.copy f) (
    ground (
      arith,
      copy_rest_succeeds faults names out fs n,
      copy_rest_succeeds faults names (out ++ raw f ∷ []) fs n,
      append_assoc out (raw f ∷ []) (forwarded names fs),
    ))

-- Where no call of the zip writer fails, every substitute can be read and the callback reports no
-- error, `Assemble` on a readable archive succeeds, and its output is the substitutes that are not
-- excluded and behind them the source's entries that are neither excluded nor substituted.
pub assemble_succeeds :
    (faults : Faults) (src : List Entry) (subs : List Substitute)
    → NoFaults faults
    → All IsReadable subs
    → assemble faults (archive src) subs none
      ≡ ok (substituted subs ++ forwarded (substituted_names [] subs) src)
unfolding assemble close_writer
assemble_succeeds faults src subs n r =
    rw
      (
        fill_succeeds faults [] [] subs n r,
        copy_rest_succeeds faults (substituted_names [] subs) (substituted subs) src n,
        n.close,
      )
      (ground arith)
