-- ===== src/Pipeline/Paths/Names.antt =====
-- Which entry names the tests accept.
use ipadecrypt.Pipeline.Paths.{
  main_plist_parts, is_main_app_info_plist, watch_parts, is_watch_path, excluded_segment,
  any_excluded, excluded_parts, is_excluded_ipa_entry,
}
use ipadecrypt.Prelude.Text.Laws.{
  equal_iff, equal_refl, has_suffix_iff, split_append, split-snoc, split-Free, join-split, Free,
  take_append,
}
use ipadecrypt.Prelude.Text.{codes, equal, has_suffix, trim_suffix, split, join, onto_first}
use ipadecrypt.Prelude.{
  ◌-◌, ◌≡◌, ◌↔◌, ◌⊎◌, inl, inr, refl, sym, ap, ◌∙◌, subst, true, false, arith, List, [], ◌∷◌, ◌++◌,
  Bytes, All, Bool-cases, length, length-append, take, append-nil,
}

-- `name` is `Payload/<app>/<dir>`, or lies below it; `app` is one segment and ends in `.app`.
pub record InAppDir (dir name : Bytes) : Type 0 where
  pub app : Bytes
  pub app_free : Free b'/' app
  pub app_suffix : has_suffix app (codes ".app") ≡ true
  pub after : Bytes
  pub closed : (after ≡ []) ⊎ ((r : Bytes) × (after ≡ b'/' ∷ r))
  pub name_is : name ≡ codes "Payload/" ++ (app ++ (b'/' ∷ (dir ++ after)))

after_parts :
    (ps : List Bytes)
    → (after : Bytes) × ((after ≡ []) ⊎ ((r : Bytes) × (after ≡ b'/' ∷ r)))
      × ((d : Bytes) → join b'/' (d ∷ ps) ≡ d ++ after)
unfolding join
after_parts [] = ([], inl refl, λ d. sym (append-nil d))
after_parts (p ∷ ps) = (b'/' ∷ join b'/' (p ∷ ps), inr (join b'/' (p ∷ ps), refl), λ d. refl)

watch_parts_sound :
    (ps : List Bytes)
    → All (Free b'/') ps
    → watch_parts ps ≡ true
    → InAppDir (codes "Watch") (join b'/' ps)
unfolding watch_parts join
watch_parts_sound [] f h = absurd (ground arith)
watch_parts_sound (a ∷ []) f h = absurd (ground arith)
watch_parts_sound (a ∷ b ∷ []) f h = absurd (ground arith)
watch_parts_sound (a ∷ b ∷ c ∷ ps) f h =
    let (after, closed, joined) = after_parts ps in
    let ea : a ≡ codes "Payload" = (equal_iff a _).0 (ground arith) in
    let ec : c ≡ codes "Watch" = (equal_iff c _).0 (ground arith) in
    record {
      app = b;
      app_free = f.1.0;
      app_suffix = ground arith;
      after = after;
      closed = closed;
      name_is = rw (joined c, ea, ec);
    }

split_watch :
    {name : Bytes}
    → InAppDir (codes "Watch") name
    → (app : Bytes) × (ps : List Bytes) × (split b'/' name
        ≡ codes "Payload" ∷ app ∷ codes "Watch" ∷ ps)
      × (has_suffix app (codes ".app") ≡ true)
unfolding split onto_first
split_watch w = elim w.closed [
  | inl e ↦ (
    w.app,
    [],
    rw (w.name_is, e)
        (ap (λ t. codes "Payload" ∷ t) (split_append b'/' w.app (codes "Watch") w.app_free)),
    w.app_suffix,
  )
  | inr (r, e) ↦ (
    w.app,
    split b'/' r,
    rw (w.name_is, e)
        (ap (λ t. codes "Payload" ∷ t)
          (split_append b'/' w.app (codes "Watch" ++ (b'/' ∷ r)) w.app_free)),
    w.app_suffix,
  )
]

-- `isWatchPath` accepts exactly `Payload/<app>.app/Watch` and what lies below it.
pub is_watch_path_iff : (name : Bytes) → (is_watch_path name ≡ true) ↔ InAppDir (codes "Watch") name
unfolding is_watch_path
is_watch_path_iff name = (sound, complete)
  where
    sound : is_watch_path name ≡ true → InAppDir (codes "Watch") name
    sound h =
        subst (InAppDir (codes "Watch")) (join-split b'/' name)
          (watch_parts_sound (split b'/' name) (split-Free b'/' name) h)

    complete : InAppDir (codes "Watch") name → is_watch_path name ≡ true
    complete w =
        let (app, ps, parts, suffix) = split_watch w in
        rw parts (ground (arith, suffix, equal_refl (codes "Payload"), equal_refl (codes "Watch")))

-- The third segment of a watch path stays in place when one `/` is cut off the end.
trimmed_watch :
    (r app : Bytes) (ps : List Bytes)
    → split b'/' (r ++ b'/' ∷ []) ≡ codes "Payload" ∷ app ∷ codes "Watch" ∷ ps
    → excluded_parts (split b'/' r) ≡ true
unfolding excluded_parts any_excluded excluded_segment
trimmed_watch r app ps e = go (split b'/' r) (sym (split-snoc b'/' r) ∙ e)
  where
    go :
        (qs : List Bytes)
        → qs ++ [] ∷ [] ≡ codes "Payload" ∷ app ∷ codes "Watch" ∷ ps
        → excluded_parts qs ≡ true
    go [] h = absurd (cc)
    go (a ∷ []) h = absurd (cc)
    go (a ∷ b ∷ []) h = absurd (cc)
    go (a ∷ b ∷ c ∷ qs) h = ground (arith, equal_refl (codes "Watch"))

-- Everything that `PatchForInstall` and `CleanupIPA` drop as a watch path, `Assemble` drops too.
pub watch-excluded : (name : Bytes) → is_watch_path name ≡ true → is_excluded_ipa_entry name ≡ true
unfolding is_excluded_ipa_entry trim_suffix
watch-excluded name h = elim (Bool-cases (has_suffix name (codes "/"))) [
  | inr plain ↦
      let (app, ps, parts, suffix) = split_watch ((is_watch_path_iff name).0 h) in
      let third : excluded_parts (split b'/' name) ≡ true = third_of parts in
      ground (arith, plain, third)
  | inl slashed ↦
      let (r, e) = (has_suffix_iff name (codes "/")).0 slashed in
      let (app, ps, parts, suffix) = split_watch ((is_watch_path_iff name).0 h) in
      let cut : take (length name - 1) name ≡ r =
        let n : length (r ++ b'/' ∷ []) - 1 ≡ length r =
          omega (arith, length-append r (b'/' ∷ [])) in
        ap (λ t. take (length t - 1) t) e
        ∙ ap (λ k. take k (r ++ b'/' ∷ [])) n
        ∙ take_append r (b'/' ∷ []) in
      let third : excluded_parts (split b'/' r) ≡ true =
        trimmed_watch r app ps (ap (split b'/') (sym e) ∙ parts) in
      ground (arith, slashed, cut, third)
]
  where
    third_of :
        {app : Bytes} {ps : List Bytes}
        → split b'/' name ≡ codes "Payload" ∷ app ∷ codes "Watch" ∷ ps
        → excluded_parts (split b'/' name) ≡ true
    third_of parts = rw parts (
        unfold excluded_parts any_excluded excluded_segment in
        ground (arith, equal_refl (codes "Watch")))

third :
    (a b c : Bytes)
    → main_plist_parts (a ∷ b ∷ c ∷ []) ≡ true
    → watch_parts (a ∷ b ∷ c ∷ []) ≡ false
unfolding main_plist_parts watch_parts
third a b c e =
    let plist : equal c (codes "Info.plist") ≡ true = ground arith in
    let here = (equal_iff c (codes "Info.plist")).0 plist in
    let other : equal (codes "Info.plist") (codes "Watch") ≡ false = unfold equal in refl in
    rw here (ground (arith, other))

-- The main Info.plist lies in no watch app.
pub is_main_app_info_plist-is_watch_path :
    (name : Bytes) → is_main_app_info_plist name ≡ true → is_watch_path name ≡ false
unfolding is_main_app_info_plist is_watch_path
is_main_app_info_plist-is_watch_path name h = parts (split b'/' name) h
  where
    parts : (ps : List Bytes) → main_plist_parts ps ≡ true → watch_parts ps ≡ false
    parts [] e = refl
    parts (a ∷ []) e = refl
    parts (a ∷ b ∷ []) e = refl
    parts (a ∷ b ∷ c ∷ []) e = third a b c e
    parts (a ∷ b ∷ c ∷ d ∷ ps) e = absurd (unfold main_plist_parts in cc)
