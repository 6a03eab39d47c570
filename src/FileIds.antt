-- ===== src/FileIds.antt =====
-- internal/spcserver/fileids: the numbers under which a device addresses folders and files. filepath.Clean,
-- os.Stat and the digest of a file are parameters; of SQLite's errors that of UNIQUE is modelled.
pub mod Stable
pub mod Tests
use boox_bridge.Prelude.{
  ℕ, suc, String, Bool, true, false, not, ◌&&◌, Option, none, some, if◌then◌else◌, List, [], ◌∷◌,
  ◌++◌, ◌==◌,
}
use boox_bridge.Prelude.Text.{str_eq}
use boox_bridge.Prelude.Int.{ℤ, pos, eqb_int}
use boox_bridge.Prelude.Lists.{any}
use boox_bridge.Prelude.Result.{Result, ok, err, ◌>>=◌}
use boox_bridge.Notedb.{first_row, change_where}

pub record FileRow : Type 0 where
  pub id : ℕ
  pub path : String
  pub md5 : String
  pub md5_size : ℤ
  pub md5_mtime : ℤ

-- The table, and the greatest number that AUTOINCREMENT has given.
pub record FileTable : Type 0 where
  pub rows : List FileRow
  pub sequence : ℕ

unfoldable pub file_is : ℕ → FileRow → Bool
file_is id r = r.id == id

unfoldable pub at_file : String → FileRow → Bool
at_file path r = str_eq r.path path

unfoldable pub new_file : ℕ → String → FileRow
new_file id path = record { id = id; path = path; md5 = ""; md5_size = pos 0; md5_mtime = pos 0 }

-- INSERT OR IGNORE. SQLite counts a row that is ignored too.
unfoldable pub insert_path : String → FileTable → FileTable
unfolding at_file new_file
insert_path path t =
    if any (at_file path) t.rows
    then record t { sequence = suc t.sequence }
    else record { rows = t.rows ++ new_file (suc t.sequence) path ∷ []; sequence = suc t.sequence }

unfoldable pub id_of : Option FileRow → Result ℕ
id_of none = err "fileids lookup: sql: no rows in result set"
id_of (some r) = ok (r.id)

unfoldable pub path_of : Option FileRow → Option String
path_of none = none
path_of (some r) = some (r.path)

unfoldable pub path_for : ℕ → FileTable → Option String
unfolding path_of first_row file_is
path_for id t = path_of (first_row (file_is id) t.rows)

-- Size and time of the last change.
abbrev pub Stat : Type 0
Stat = ℤ × ℤ

unfoldable pub is_cached : Stat → FileRow → Bool
is_cached s r = not (str_eq r.md5 "") && (eqb_int r.md5_size s.0 && eqb_int r.md5_mtime s.1)

unfoldable pub set_md5 : String → Stat → FileRow → FileRow
set_md5 digest s r = record r { md5 = digest; md5_size = s.0; md5_mtime = s.1 }

unfoldable pub write_cache : ℕ → Stat → Result String → FileTable → Result String × FileTable
unfolding change_where file_is set_md5
write_cache id s (err e) t = (err e, t)
write_cache id s (ok digest) t =
    (ok digest, record t { rows = change_where (file_is id) (set_md5 digest s) t.rows })

-- The part of MD5For after the SELECT.
unfoldable pub md5_of :
    Stat → Result String → Option FileRow → FileTable → Result String × FileTable
unfolding is_cached write_cache
md5_of s hash none t = (err "fileids MD5For read cache: sql: no rows in result set", t)
md5_of s hash (some r) t = if is_cached s r then (ok (r.md5), t) else write_cache r.id s hash t

module _ (clean : String → String) where
  -- The table is changed even where the number cannot be read.
  unfoldable pub id_for : String → FileTable → Result ℕ × FileTable
  unfolding insert_path id_of first_row at_file
  id_for path t =
      let t' = insert_path (clean path) t in (id_of (first_row (at_file (clean path)) t'.rows), t')

  unfoldable pub root_id : String → FileTable → Result ℕ × FileTable
  unfolding id_for
  root_id root t = id_for (clean root) t

  unfoldable pub update_path : ℕ → String → FileTable → Result FileTable
  unfolding file_is at_file change_where
  update_path id path t =
      if any (file_is id) t.rows && any (λ r. at_file (clean path) r && not (file_is id r)) t.rows
      then err "fileids UpdatePath: UNIQUE constraint failed"
      else ok (record t {
        rows = change_where (file_is id) (λ r. record r { path = clean path }) t.rows;
      })

  unfoldable pub md5_for :
      (String → Result Stat)
      → (String → Result String)
      → String
      → FileTable
      → Result String × FileTable
  unfolding id_for md5_of first_row file_is
  md5_for stat hash path t =
      let (id, t') = id_for path t in
      elim id [
        | err e ↦ (err e, t')
        | ok i ↦ elim (stat path) [
          | err e ↦ (err e, t')
          | ok s ↦ md5_of s (hash path) (first_row (file_is i) t'.rows) t'
        ]
      ]
