-- ===== src/Pipeline/Info/Reads.antt =====
-- What `AppInfo` and `MainExecSHA256` answer.
use ipadecrypt.Outcome.{ok, Returns, Outcome-cases}
use ipadecrypt.Pipeline.Archive.{readable, Entry, Opened, unreadable, archive, read_all}
use ipadecrypt.Pipeline.Info.{
  read_info, app_dir, exec_of, find_name, hash_entry, hash_exec, main_exec_sha256,
}
use ipadecrypt.Pipeline.Install.{find_plist}
use ipadecrypt.Pipeline.Patch.{Plist, is_empty}
use ipadecrypt.Pipeline.Paths.{main_plist_parts, is_main_app_info_plist}
use ipadecrypt.Prelude.Text.Laws.{equal_iff}
use ipadecrypt.Prelude.Text.{codes, split}
use ipadecrypt.Prelude.{
  ℕ, ◌+◌, ◌≡◌, sym, ap, ◌∙◌, subst, true, false, arith, some, List, [], ◌∷◌, ◌++◌, Bytes,
  Option-cases, inl, inr,
}

-- The file that `find_plist` finds is a main Info.plist.
find_plist-is_main :
    (i : ℕ) (fs : List Entry) {j : ℕ} {f : Entry}
    → find_plist i fs ≡ some (j, f)
    → is_main_app_info_plist f.name ≡ true
unfolding find_plist
find_plist-is_main i [] e = absurd (ground arith)
find_plist-is_main i (g ∷ fs) {j} {f} e =
    ground (arith, find_plist-is_main (i + 1) fs {j = j} {f = f})

-- The entry that `find_name` finds has the name.
find_name-name :
    (path : Bytes) (fs : List Entry) {f : Entry} → find_name path fs ≡ some f → f.name ≡ path
unfolding find_name
find_name-name path [] e = absurd (ground arith)
find_name-name path (g ∷ fs) {f} e =
    ground (arith, find_name-name path fs {f = f}, equal_iff g.name path)

app_dir_of_main :
    (parts : List Bytes)
    → main_plist_parts parts ≡ true
    → (app : Bytes) × (app_dir parts ≡ ok (codes "Payload" ++ (b'/' ∷ app)))
unfolding main_plist_parts app_dir
app_dir_of_main [] h = absurd (ground arith)
app_dir_of_main (a ∷ []) h = absurd (ground arith)
app_dir_of_main (a ∷ b ∷ []) h = absurd (ground arith)
app_dir_of_main (a ∷ b ∷ c ∷ []) h = (b, ground (arith, equal_iff a (codes "Payload")))
app_dir_of_main (a ∷ b ∷ c ∷ d ∷ ps) h = absurd (ground arith)

app_dir_of_plist :
    (f : Entry)
    → is_main_app_info_plist f.name ≡ true
    → (app : Bytes) × (app_dir (split b'/' f.name) ≡ ok (codes "Payload" ++ (b'/' ∷ app)))
unfolding is_main_app_info_plist
app_dir_of_plist f h = app_dir_of_main (split b'/' f.name) h

read_info-Returns : (plist : Plist) (f : Entry) → Returns (read_info plist f)
unfolding read_info read_all
read_info-Returns plist f = ground arith

exec_of-Returns :
    (plist : Plist) (entries : List Entry) → Returns (exec_of plist (find_plist 0 entries))
unfolding exec_of
exec_of-Returns plist entries = elim (Option-cases (find_plist 0 entries)) [
  | inl nothing ↦ rw nothing tt
  | inr ((i, f), found) ↦
      let (app, dir) = app_dir_of_plist f (find_plist-is_main 0 entries found) in
      rw (found, dir) (ground (arith, read_info-Returns plist f))
]

module _ (digest : Bytes → Bytes) where
  hash_exec-Returns :
      (entries : List Entry) (exec path : Bytes) → Returns (hash_exec digest entries exec path)
  unfolding hash_exec hash_entry read_all
  hash_exec-Returns entries exec path = ground arith

  -- `MainExecSHA256` never panics: the name of a main Info.plist has a first and a second part.
  pub main_exec_sha256-Returns :
      (plist : Plist) (opened : Opened) → Returns (main_exec_sha256 digest plist opened)
  unfolding main_exec_sha256
  main_exec_sha256-Returns plist (unreadable e) = tt
  main_exec_sha256-Returns plist (archive entries) =
      elim (Outcome-cases (exec_of plist (find_plist 0 entries))) [
        | inl ((exec, dir), e) ↦
            rw e (ground (arith, hash_exec-Returns entries exec (dir ++ (b'/' ∷ exec))))
        | inr (inl (x, e)) ↦ rw e tt
        | inr (inr e) ↦ absurd (ground (arith, exec_of-Returns plist entries, e))
      ]

-- The path of the main executable `exec` of the app directory `app`.
abbrev pub exec_path : Bytes → Bytes → Bytes
exec_path app exec = (codes "Payload" ++ (b'/' ∷ app)) ++ (b'/' ∷ exec)

-- Where the main executable's name comes from.
exec_of-eq-ok :
    (plist : Plist) (entries : List Entry) (exec dir : Bytes)
    → exec_of plist (find_plist 0 entries) ≡ ok (exec, dir)
    → is_empty exec ≡ false
    → (app : Bytes) × (dir ≡ codes "Payload" ++ (b'/' ∷ app))
unfolding exec_of
exec_of-eq-ok plist entries exec dir e named = elim (Option-cases (find_plist 0 entries)) [
  | inl nothing ↦ absurd (ground (arith, nothing))
  | inr ((i, f), found) ↦
      let (app, d) = app_dir_of_plist f (find_plist-is_main 0 entries found) in
      (app, ground (arith, found, d))
]

module _ (digest : Bytes → Bytes) where
  hash_exec-eq-ok :
      (entries : List Entry) (exec path exec' sum : Bytes)
      → hash_exec digest entries exec path ≡ ok (exec', sum)
      → (f : Entry) × (bs : Bytes) × (find_name path entries ≡ some f)
        × (f.content ≡ readable bs)
        × (sum ≡ digest bs)
        × (exec' ≡ exec)
  unfolding hash_exec hash_entry read_all
  hash_exec-eq-ok entries exec path exec' sum e = elim (Option-cases (find_name path entries)) [
    | inl nothing ↦ absurd (ground (arith, nothing))
    | inr (f, found) ↦ elim (Outcome-cases (read_all f.content)) [
      | inl (bs, r) ↦
          (f, bs, found, ground (arith, r), ground (arith, found, r), ground (arith, found, r))
      | inr (inl (x, r)) ↦ absurd (ground (arith, found, r))
      | inr (inr r) ↦ absurd (ground (arith, found, r))
    ]
  ]

  -- When `MainExecSHA256` answers, the name is not empty, and the sum is that of the first entry at
  -- `Payload/<app>/<name>`, read to its end.
  pub main_exec_sha256_sound :
      (plist : Plist) (entries : List Entry) (exec sum : Bytes)
      → main_exec_sha256 digest plist (archive entries) ≡ ok (exec, sum)
      → (is_empty exec ≡ false)
        × (app : Bytes) × (f : Entry) × (bs : Bytes) × (find_name (exec_path app exec) entries
            ≡ some f)
        × (f.name ≡ exec_path app exec)
        × (f.content ≡ readable bs)
        × (sum ≡ digest bs)
  unfolding main_exec_sha256
  main_exec_sha256_sound plist entries exec sum e =
      elim (Outcome-cases (exec_of plist (find_plist 0 entries))) [
        | inl ((name, dir), o) ↦
            let named : is_empty name ≡ false = ground (arith, o) in
            let hashed : hash_exec digest entries name (dir ++ (b'/' ∷ name)) ≡ ok (exec, sum) =
              ground (arith, o, named) in
            let (app, d) = exec_of-eq-ok plist entries name dir o named in
            let (f, bs, found, content, s, same) =
              hash_exec-eq-ok entries name (dir ++ (b'/' ∷ name)) exec sum hashed in
            let path : dir ++ (b'/' ∷ name) ≡ exec_path app exec =
              ap (λ t. t ++ (b'/' ∷ name)) d ∙ ap (exec_path app) (sym same) in
            let at : find_name (exec_path app exec) entries ≡ some f =
              subst (λ t. find_name t entries ≡ some f) path found in
            (
              subst (λ t. is_empty t ≡ false) (sym same) named,
              app,
              f,
              bs,
              at,
              find_name-name (exec_path app exec) entries at,
              content,
              s,
            )
        | inr (inl (x, o)) ↦ absurd (ground (arith, o))
        | inr (inr o) ↦ absurd (ground (arith, o))
      ]
