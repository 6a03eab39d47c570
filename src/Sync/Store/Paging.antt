-- ===== src/Sync/Store/Paging.antt =====
-- `OpsSince`: pages of the changelog lose no operation and repeat none.
use boox_bridge.Prelude.{
  ℕ, zero, suc, ◌+◌, ◌≤◌, String, ◌≡◌, ◌≢◌, refl, sym, ap, ◌∙◌, inl, inr, true, false, none, some,
  List, [], ◌∷◌, ◌++◌, ◌==◌, Bool-cases, Option-cases, arith,
}
use mathlib.Core.List.{append-nil, append_assoc}
use boox_bridge.Prelude.Int.{ℤ, pos}
use boox_bridge.Prelude.Lists.{length, length-append}
use boox_bridge.Prelude.Result.{ok}
use boox_bridge.Sync.Op.{Op}
use boox_bridge.Sync.Codec.{Codec}
use boox_bridge.Sync.Store.{LogRow, Db}
use boox_bridge.Sync.Store.Consistent.{log_ops, log_ops-append}
use boox_bridge.Sync.Store.Relay.{is_relayed, relayed, take, page_limit, Page, scan_rows, ops_since}
use boox_bridge.Sync.Store.Selection.{
  drop, nonempty, Ascends, last_cursor, relayed_after, take_more, take-append-drop, drop_more,
}

module _ {N P : Type 0} (c : Codec N P) where
  -- Every payload of the rows can be read.
  abbrev pub AllReadable : List (LogRow P) → Type 0
  AllReadable [] = Unit
  AllReadable (r ∷ rs) = (c.unmarshal r.payload ≢ none) × AllReadable rs

  log_ops-none : (acc : List (Op N)) → acc ++ log_ops c [] ≡ acc
  unfolding log_ops
  log_ops-none acc = append-nil acc

  log_ops-read :
      (r : LogRow P) (op : Op N) (rs : List (LogRow P))
      → c.unmarshal r.payload ≡ some op
      → log_ops c (r ∷ rs) ≡ op ∷ log_ops c rs
  unfolding log_ops
  log_ops-read r op rs m = rw m

  scan_rows_full :
      (limit : ℕ) (r : LogRow P) (rs : List (LogRow P)) (acc : List (Op N)) (cursor : ℤ)
      → (length acc == limit) ≡ true
      → scan_rows c limit (r ∷ rs) acc cursor
        ≡ ok (record { ops = acc; cursor = cursor; has_more = true })
  unfolding scan_rows
  scan_rows_full limit r rs acc cursor e = ground arith

  scan_rows_next :
      (limit : ℕ) (r : LogRow P) (rs : List (LogRow P)) (acc : List (Op N)) (cursor : ℤ) (op : Op N)
      → (length acc == limit) ≡ false
      → c.unmarshal r.payload ≡ some op
      → scan_rows c limit (r ∷ rs) acc cursor ≡ scan_rows c limit rs (acc ++ op ∷ []) (pos r.seq)
  unfolding scan_rows
  scan_rows_next limit r rs acc cursor op e m = ground arith

  scan_rows_lem :
      (limit k : ℕ) (rs : List (LogRow P)) (acc : List (Op N)) (cursor : ℤ)
      → AllReadable rs
      → length acc + k ≡ limit
      → scan_rows c limit rs acc cursor
        ≡ ok (record {
          ops = acc ++ log_ops c (take k rs);
          cursor = last_cursor cursor (take k rs);
          has_more = nonempty (drop k rs);
        })
  unfolding scan_rows last_cursor take
  scan_rows_lem limit zero [] acc cursor a e =
      ap (λ l. ok (record { ops = l; cursor = cursor; has_more = false })) (sym (log_ops-none acc))
  scan_rows_lem limit (suc k) [] acc cursor a e =
      ap (λ l. ok (record { ops = l; cursor = cursor; has_more = false })) (sym (log_ops-none acc))
  scan_rows_lem limit zero (r ∷ rs) acc cursor a e =
      scan_rows_full limit r rs acc cursor (ground arith)
      ∙ ap (λ l. ok (record { ops = l; cursor = cursor; has_more = true })) (sym (log_ops-none acc))
  scan_rows_lem limit (suc k) (r ∷ rs) acc cursor a e =
      elim (Option-cases (c.unmarshal r.payload)) [
        | inl m ↦ absurd (a.0 m)
        | inr (op, m) ↦
            scan_rows_next limit r rs acc cursor op (ground arith) m
            ∙ scan_rows_lem limit k rs (acc ++ op ∷ []) (pos r.seq) a.1
                (omega (arith, length-append acc (op ∷ [])))
            ∙ ap
                (λ l. ok (record {
                  ops = l;
                  cursor = last_cursor (pos r.seq) (take k rs);
                  has_more = nonempty (drop k rs);
                }))
                (append_assoc acc (op ∷ []) (log_ops c (take k rs))
                  ∙ ap (λ l. acc ++ l) (sym (log_ops-read r op (take k rs) m)))
      ]

  take-AllReadable : (n : ℕ) (rs : List (LogRow P)) → AllReadable rs → AllReadable (take n rs)
  unfolding take
  take-AllReadable zero rs h = tt
  take-AllReadable (suc n) [] h = tt
  take-AllReadable (suc n) (r ∷ rs) h = (h.0, take-AllReadable n rs h.1)

  relayed-AllReadable :
      (cursor : ℤ) (site : String) (rs : List (LogRow P))
      → AllReadable rs
      → AllReadable (relayed cursor site rs)
  unfolding relayed
  relayed-AllReadable cursor site [] h = tt
  relayed-AllReadable cursor site (r ∷ rs) h = elim (Bool-cases (is_relayed cursor site r)) [
    | inl e ↦ rw e (h.0, relayed-AllReadable cursor site rs h.1)
    | inr e ↦ rw e (relayed-AllReadable cursor site rs h.1)
  ]

  log_ops-split :
      (n : ℕ) (rs : List (LogRow P)) → log_ops c rs ≡ log_ops c (take n rs) ++ log_ops c (drop n rs)
  log_ops-split n rs =
      ap (log_ops c) (sym (take-append-drop n rs)) ∙ log_ops-append c (take n rs) (drop n rs)

  length-log_ops-take : (n : ℕ) (rs : List (LogRow P)) → length (log_ops c (take n rs)) ≤ n
  unfolding take log_ops
  length-log_ops-take zero rs = omega arith
  length-log_ops-take (suc n) [] = omega arith
  length-log_ops-take (suc n) (r ∷ rs) = ground (arith, length-log_ops-take n rs)

  -- A page against the changelog.
  pub record IsPage (cursor : ℤ) (site : String) (limit : ℤ) (db : Db P) (p : Page N) : Type 0 where
    pub split :
        log_ops c (relayed cursor site db.ops) ≡ p.ops ++ log_ops c (relayed p.cursor site db.ops)
    pub bounded : length p.ops ≤ page_limit limit
    pub more : p.has_more ≡ nonempty (relayed p.cursor site db.ops)

  -- On an ascending changelog with readable payloads OpsSince succeeds: its operations followed by
  -- those relayed from its cursor on are those relayed from the old cursor on, they are no more
  -- than the limit, and has_more says whether any are left.
  pub ops_since_lem :
      (cursor : ℤ) (site : String) (limit : ℤ) (db : Db P)
      → Ascends 0 db.ops
      → AllReadable db.ops
      → (p : Page N) × (ops_since c cursor site limit db ≡ ok p) × IsPage cursor site limit db p
  unfolding ops_since
  ops_since_lem cursor site limit db asc read =
      let n = page_limit limit in
      let sel = relayed cursor site db.ops in
      (
        record {
          ops = log_ops c (take n sel);
          cursor = last_cursor cursor (take n sel);
          has_more = nonempty (drop n sel);
        },
        ap (λ m. scan_rows c n (take m sel) [] cursor) (omega arith)
            ∙ scan_rows_lem n n (take (suc n) sel) [] cursor
                (take-AllReadable (suc n) sel (relayed-AllReadable cursor site db.ops read))
                (omega arith)
            ∙ rw (take_more n sel, drop_more n sel) refl,
        record {
          split =
              log_ops-split n sel
              ∙ ap (λ l. log_ops c (take n sel) ++ log_ops c l)
                  (sym (relayed_after 0 n cursor site db.ops asc));
          bounded = length-log_ops-take n sel;
          more = ap nonempty (sym (relayed_after 0 n cursor site db.ops asc));
        },
      )
