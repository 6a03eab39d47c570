-- ===== src/Rag/Vectors/View.antt =====
-- What the store promises: a map from path, page and chunk to a vector, and each operation as a change
-- of that map.
use boox_bridge.Prelude.{
  ℕ, String, ◌≡◌, refl, ap, ◌∙◌, inl, inr, Bool, true, false, ◌&&◌, Option, none, some,
  if◌then◌else◌, List, [], ◌∷◌, ◌++◌, map, ◌==◌, Bool-cases, arith,
}
use boox_bridge.Prelude.Text.{str_eq, eq_iff}
use boox_bridge.Prelude.Lists.{keep, any}
use boox_bridge.Rag.Vectors.{
  EmbeddingRow, EmbeddingRecord, row_is, record_is, save_record, delete_page_records,
  delete_records, renamed_record, rename_records, copy_records, record_under,
}

-- The abstract store.
abbrev pub Book : Type 0 → Type 0
Book F = String → ℕ → ℕ → Option (List F)

unfoldable pub first_of {ℓ} : {A : Type ℓ} → Option A → Option A → Option A
first_of none y = y
first_of (some x) y = some x

module _ {F : Type 0} where
  unfoldable pub view : List (EmbeddingRecord F) → Book F
  unfolding record_is
  view [] path page chunk = none
  view (r ∷ cache) path page chunk =
      if record_is path page chunk r then some r.embedding else view cache path page chunk

  pub view-save_record :
      (new : EmbeddingRecord F) (cache : List (EmbeddingRecord F)) (p : String) (g c : ℕ)
      → view (save_record new cache) p g c
        ≡ (if record_is p g c new then some new.embedding else view cache p g c)
  unfolding view save_record
  view-save_record new [] p g c = refl
  view-save_record new (r ∷ cache) p g c = ground (
    arith,
    view-save_record new cache p g c,
    eq_iff r.note_path new.note_path,
    eq_iff r.note_path p,
    eq_iff new.note_path p,
  )

  pub view-delete_page :
      (path : String) (page : ℕ) (cache : List (EmbeddingRecord F)) (p : String) (g c : ℕ)
      → view (delete_page_records path page cache) p g c
        ≡ (if str_eq p path && g == page then none else view cache p g c)
  unfolding view delete_page_records keep
  view-delete_page path page [] p g c = ground arith
  view-delete_page path page (r ∷ cache) p g c = ground (
    arith,
    view-delete_page path page cache p g c,
    eq_iff r.note_path path,
    eq_iff r.note_path p,
    eq_iff p path,
  )

  pub view-delete :
      (path : String) (cache : List (EmbeddingRecord F)) (p : String) (g c : ℕ)
      → view (delete_records path cache) p g c ≡ (if str_eq p path then none else view cache p g c)
  unfolding view delete_records keep
  view-delete path [] p g c = ground arith
  view-delete path (r ∷ cache) p g c = ground (
    arith,
    view-delete path cache p g c,
    eq_iff r.note_path path,
    eq_iff r.note_path p,
    eq_iff p path,
  )

  view-append :
      (xs ys : List (EmbeddingRecord F)) (p : String) (g c : ℕ)
      → view (xs ++ ys) p g c ≡ first_of (view xs p g c) (view ys p g c)
  unfolding view first_of
  view-append [] ys p g c = refl
  view-append (r ∷ xs) ys p g c = elim (Bool-cases (record_is p g c r)) [
    | inl e ↦ rw e refl
    | inr e ↦ rw e (view-append xs ys p g c)
  ]

  -- The records of one path under another.
  view-under :
      (src dst : String) (cache : List (EmbeddingRecord F)) (p : String) (g c : ℕ)
      → view
          (map (record_under dst) (keep (λ (r : EmbeddingRecord F). str_eq r.note_path src) cache))
          p
          g
          c
        ≡ (if str_eq p dst then view cache src g c else none)
  unfolding view record_under keep
  view-under src dst [] p g c = ground arith
  view-under src dst (r ∷ cache) p g c =
      ground
        (arith, view-under src dst cache p g c, eq_iff r.note_path src, eq_iff dst p, eq_iff p dst)

  pub view-copy :
      (src dst : String) (cache : List (EmbeddingRecord F)) (p : String) (g c : ℕ)
      → view (copy_records src dst cache) p g c ≡ (
          if str_eq p dst
          then (if str_eq src dst then none else view cache src g c)
          else view cache p g c)
  unfolding copy_records first_of
  view-copy src dst cache p g c =
      view-append (delete_records dst cache) _ p g c
      ∙ rw
          (
            view-delete dst cache p g c,
            view-under src dst (delete_records dst cache) p g c,
            view-delete dst cache src g c,
          )
          (split (str_eq p dst) (view cache p g c))
    where
      split :
          (b : Bool) (v : Option (List F))
          → first_of
              (if b then none else v)
              (if b then (if str_eq src dst then none else view cache src g c) else none)
            ≡ (if b then (if str_eq src dst then none else view cache src g c) else v)
      split true v = refl
      split false none = refl
      split false (some x) = refl

  absent :
      (cache : List (EmbeddingRecord F)) (p : String) (g c : ℕ)
      → any (record_is p g c) cache ≡ false
      → view cache p g c ≡ none
  unfolding view any
  absent [] p g c h = refl
  absent (r ∷ cache) p g c h = ground (arith, absent cache p g c)

  view-rename_new :
      (old new : String) (cache : List (EmbeddingRecord F)) (g c : ℕ)
      → any (record_is old g c) cache && any (record_is new g c) cache ≡ false
      → view (rename_records old new cache) new g c
        ≡ first_of (view cache old g c) (view cache new g c)
  unfolding view rename_records renamed_record any first_of
  view-rename_new old new [] g c free = refl
  view-rename_new old new (r ∷ cache) g c free =
      let rest = view-rename_new old new cache g c in
      elim (Bool-cases (str_eq r.note_path old)) [
        | inl e ↦ rw e (ground (arith, rest, eq_iff new new))
        | inr e ↦ rw e (ground (arith, rest, absent cache old g c))
      ]

  view-rename_old :
      (old new : String) (cache : List (EmbeddingRecord F)) (g c : ℕ)
      → str_eq old new ≡ false
      → view (rename_records old new cache) old g c ≡ none
  unfolding view rename_records renamed_record
  view-rename_old old new [] g c ne = refl
  view-rename_old old new (r ∷ cache) g c ne = ground (
    arith,
    view-rename_old old new cache g c,
    eq_iff r.note_path old,
    eq_iff old new,
    eq_iff new old,
  )

  view-rename_other :
      (old new p : String) (cache : List (EmbeddingRecord F)) (g c : ℕ)
      → str_eq p new ≡ false
      → str_eq p old ≡ false
      → view (rename_records old new cache) p g c ≡ view cache p g c
  unfolding view rename_records renamed_record
  view-rename_other old new p [] g c m n = refl
  view-rename_other old new p (r ∷ cache) g c m n = ground (
    arith,
    view-rename_other old new p cache g c,
    eq_iff r.note_path old,
    eq_iff r.note_path p,
    eq_iff p new,
    eq_iff new p,
    eq_iff p old,
  )

  pub view-rename :
      (old new : String) (cache : List (EmbeddingRecord F)) (p : String) (g c : ℕ)
      → str_eq old new ≡ false
      → any (record_is old g c) cache && any (record_is new g c) cache ≡ false
      → view (rename_records old new cache) p g c ≡ (
          if str_eq p new
          then first_of (view cache old g c) (view cache new g c)
          else if str_eq p old
          then none
          else view cache p g c)
  view-rename old new cache p g c ne free = elim (Bool-cases (str_eq p new)) [
    | inl e ↦ rw e (
        ap (λ q. view (rename_records old new cache) q g c) ((eq_iff p new).0 e)
        ∙ view-rename_new old new cache g c free)
    | inr e ↦ elim (Bool-cases (str_eq p old)) [
      | inl k ↦
          rw (e, k)
            (ap (λ q. view (rename_records old new cache) q g c) ((eq_iff p old).0 k)
              ∙ view-rename_old old new cache g c ne)
      | inr k ↦ rw (e, k) (view-rename_other old new p cache g c e k)
    ]
  ]

  pub view-rename_same :
      (path : String) (cache : List (EmbeddingRecord F)) (p : String) (g c : ℕ)
      → view (rename_records path path cache) p g c ≡ view cache p g c
  unfolding view rename_records renamed_record
  view-rename_same path [] p g c = refl
  view-rename_same path (r ∷ cache) p g c =
      ground (arith, view-rename_same path cache p g c, eq_iff r.note_path path, eq_iff path p)

pub no_clash :
    (old new : String) (g c : ℕ) (rows all : List EmbeddingRow)
    → any (λ (r : EmbeddingRow). str_eq r.note_path old && any (row_is new r.page r.chunk) all) rows
      ≡ false
    → any (row_is old g c) rows && any (row_is new g c) all ≡ false
unfolding any row_is
no_clash old new g c [] all h = refl
no_clash old new g c (r ∷ rows) all h =
    let rest = no_clash old new g c rows all in
    elim (Bool-cases (r.page == g)) [
      | inl page ↦ elim (Bool-cases (r.chunk == c)) [
        | inl chunk ↦
            let at : any (row_is new r.page r.chunk) all ≡ any (row_is new g c) all =
              ap (λ n. any (row_is new n r.chunk) all) (ground arith)
              ∙ ap (λ n. any (row_is new g n) all) (ground arith) in
            ground (arith, rest, at)
        | inr chunk ↦ ground (arith, rest)
      ]
      | inr page ↦ ground (arith, rest)
    ]
