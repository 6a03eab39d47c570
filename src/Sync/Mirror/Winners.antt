-- ===== src/Sync/Mirror/Winners.antt =====
-- `mergeRow` on a mirror that holds the winners of the operations seen so far.
use mathlib.Core.Option.{some-injective}
use boox_bridge.Prelude.{
  String, ◌≡◌, refl, sym, ap, ◌∙◌, inl, inr, ◌≢◌, Bool, true, false, Option, none, some, List, [],
  ◌∷◌, ◌++◌, if◌then◌else◌, Bool-cases, Option-cases, subst,
}
use boox_bridge.Prelude.Result.{Result, ok, err, ok-injective}
use boox_bridge.Sync.Op.{Op, known_cols, normalize}
use boox_bridge.Sync.Codec.{Codec}
use boox_bridge.Sync.Mirror.{
  Row, Mirror, Stored, Merged, stored_of, stored_op, put_row, upsert, write_row, merge_row,
}
use boox_bridge.Sync.Mirror.Uniform.{Uniform, upsert-Uniform}
use boox_bridge.Sync.Reconcile.{
  TablePk, key_of, less, lookup, insert, lookup-insert, eq_table_pk, eq_table_pk_iff, wins, merge,
}
use boox_bridge.Sync.Reconcile.Winner.{pick, best, best-append, lookup-merge}

first_row : Result (String × Mirror) → Option Stored
first_row (ok (p, (k, s) ∷ m)) = some s
first_row _ = none

module _ {N P : Type 0} (c : Codec N P) where
  -- The row that an operation writes, none where its columns have a wrong type.
  unfoldable pub row_of : Op N → Option Stored
  unfolding first_row
  row_of n = first_row (upsert c n [])

  unfoldable pub row_of_winner : Option (Op N) → Option Stored
  row_of_winner none = none
  row_of_winner (some w) = row_of w

  -- The mirror holds the rows of the winners of `ops`, and each winner has a row.
  pub record HoldsWinners (ops : List (Op N)) (m : Mirror) : Type 0 where
    pub rows : (k : TablePk) → lookup k m ≡ row_of_winner (lookup k (merge ops))
    pub written :
        (k : TablePk) (w : Op N)
        → lookup k (merge ops) ≡ some w
        → (r : Row) × (row_of w ≡ some (stored_of w r))

  -- What writing the row of an operation does.
  data Written (n : Op N) (m : Mirror) : Type 0 where
    malformed : (e : String) → write_row c n m ≡ err e → Written n m
    wrote :
        (r : Row) (p : String)
        → row_of n ≡ some (stored_of n r)
        → write_row c n m ≡ ok (record { changed = true; page_pk = p; mirror = put_row n r m })
        → Written n m

  Written-cases : (n : Op N) (m : Mirror) → known_cols n.table ≢ none → Written n m
  unfolding write_row row_of put_row insert
  Written-cases n m known = elim (upsert-Uniform c n known) [
    | Uniform.fails e h ↦ Written.malformed e (rw (h m))
    | Uniform.puts p r h ↦ Written.wrote r p (rw (h [])) (rw (h m))
  ]

  -- What the mirror row of an operation says about winning is what the merge says.
  unfoldable pub beats_row : Option Stored → Op N → Bool
  beats_row none n = true
  beats_row (some s) n = less (stored_op s) n

  less-stored_of : (w n : Op N) (r : Row) → less {N = N} (stored_op (stored_of w r)) n ≡ less w n
  unfolding less stored_op stored_of
  less-stored_of w n r = refl

  beats_row-wins :
      (ops : List (Op N)) (m : Mirror) (n : Op N) (k : TablePk)
      → HoldsWinners ops m
      → beats_row (lookup k m) n ≡ wins (lookup k (merge ops)) n
  unfolding beats_row wins row_of_winner
  beats_row-wins ops m n k h = elim (Option-cases (lookup k (merge ops))) [
    | inl e ↦ rw (h.rows k, e)
    | inr (w, e) ↦ let (r, f) = h.written k w e in rw (h.rows k, e, f) (less-stored_of w n r)
  ]

  pub merge_row_known :
      (n : Op N) (m : Mirror)
      → known_cols n.table ≢ none
      → merge_row c n m ≡ (
          if beats_row (lookup (key_of n) m) n
          then write_row c n m
          else ok (record { changed = false; page_pk = ""; mirror = m }))
  unfolding merge_row beats_row
  merge_row_known n m known = elim (Option-cases (known_cols n.table)) [
    | inl e ↦ absurd (known e)
    | inr (cs, e) ↦ elim (Option-cases (lookup (key_of n) m)) [
      | inl f ↦ rw (e, f, merge_row)
      | inr (s, f) ↦ rw (e, f, merge_row)
    ]
  ]

  merge-snoc :
      (k : TablePk) (ops : List (Op N)) (op : Op N)
      → lookup k (merge (ops ++ op ∷ [])) ≡ pick k (lookup k (merge ops)) op
  unfolding best
  merge-snoc k ops op =
      lookup-merge k (ops ++ op ∷ [])
      ∙ best-append k none ops (op ∷ [])
      ∙ ap (λ acc. pick k acc op) (sym (lookup-merge k ops))

  -- The step of the merge at a row, by whether the operation is of that row and wins it.
  snoc_other :
      (k : TablePk) (ops : List (Op N)) (op : Op N)
      → eq_table_pk (key_of op) k ≡ false
      → lookup k (merge (ops ++ op ∷ [])) ≡ lookup k (merge ops)
  unfolding pick
  snoc_other k ops op e = merge-snoc k ops op ∙ rw e

  snoc_win :
      (k : TablePk) (ops : List (Op N)) (op : Op N)
      → eq_table_pk (key_of op) k ≡ true
      → wins (lookup (key_of op) (merge ops)) (normalize op) ≡ true
      → lookup k (merge (ops ++ op ∷ [])) ≡ some (normalize op)
  unfolding pick
  snoc_win k ops op e win =
      merge-snoc k ops op
      ∙ rw (
        e,
        ap (λ j. wins (lookup j (merge ops)) (normalize op)) (sym ((eq_table_pk_iff _ _).0 e))
            ∙ win,
      )

  snoc_lose :
      (k : TablePk) (ops : List (Op N)) (op : Op N)
      → wins (lookup (key_of op) (merge ops)) (normalize op) ≡ false
      → lookup k (merge (ops ++ op ∷ [])) ≡ lookup k (merge ops)
  unfolding pick
  snoc_lose k ops op lose = elim (Bool-cases (eq_table_pk (key_of op) k)) [
    | inr e ↦ snoc_other k ops op e
    | inl e ↦
        merge-snoc k ops op
        ∙ rw (
          e,
          ap (λ j. wins (lookup j (merge ops)) (normalize op)) (sym ((eq_table_pk_iff _ _).0 e))
              ∙ lose,
        )
  ]

  -- An operation that wins is the winner of its row.
  put_row-HoldsWinners :
      (ops : List (Op N)) (m : Mirror) (op : Op N) (r : Row)
      → HoldsWinners ops m
      → row_of (normalize op) ≡ some (stored_of (normalize op) r)
      → wins (lookup (key_of op) (merge ops)) (normalize op) ≡ true
      → HoldsWinners (ops ++ op ∷ []) (put_row (normalize op) r m)
  unfolding put_row normalize row_of_winner
  put_row-HoldsWinners ops m op r h row win = record {
    rows = λ k. elim (Bool-cases (eq_table_pk (key_of op) k)) [
      | inl e ↦ rw (snoc_win k ops op e win, lookup-insert, e) (sym row)
      | inr e ↦ rw (snoc_other k ops op e, lookup-insert, e) (h.rows k)
    ];
    written = λ k w p. elim (Bool-cases (eq_table_pk (key_of op) k)) [
      | inl e ↦ (
        r,
        subst (λ x. row_of x ≡ some (stored_of x r))
            (some-injective _ _ (sym (snoc_win k ops op e win) ∙ p)) row,
      )
      | inr e ↦ h.written k w (sym (snoc_other k ops op e) ∙ p)
    ];
  }

  -- An operation that loses changes no winner.
  losing-HoldsWinners :
      (ops : List (Op N)) (m : Mirror) (op : Op N)
      → HoldsWinners ops m
      → wins (lookup (key_of op) (merge ops)) (normalize op) ≡ false
      → HoldsWinners (ops ++ op ∷ []) m
  losing-HoldsWinners ops m op h lose = record {
    rows = λ k. rw (snoc_lose k ops op lose) (h.rows k);
    written = λ k w p. h.written k w (sym (snoc_lose k ops op lose) ∙ p);
  }

  pub key_of-normalize : (op : Op N) → key_of (normalize op) ≡ key_of op
  unfolding normalize
  key_of-normalize op = refl

  pub table-normalize : (op : Op N) → (normalize op).table ≡ op.table
  unfolding normalize
  table-normalize op = refl

  -- The mirror that mergeRow leaves holds the winners with the new operation among them.
  pub merge_row-HoldsWinners :
      (ops : List (Op N)) (m : Mirror) (op : Op N) (g : Merged)
      → known_cols op.table ≢ none
      → HoldsWinners ops m
      → merge_row c (normalize op) m ≡ ok g
      → HoldsWinners (ops ++ op ∷ []) g.mirror
  merge_row-HoldsWinners ops m op g known h e =
      elim (Bool-cases (beats_row (lookup (key_of op) m) n)) [
        | inl b ↦ elim (Written-cases n m known') [
          | Written.malformed x f ↦ cc (rw b at step, f)
          | Written.wrote r p row f ↦
              subst (λ x. HoldsWinners (ops ++ op ∷ []) x.mirror)
                (ok-injective (sym f ∙ (rw b at step)))
                (put_row-HoldsWinners ops m op r h row (sym agree ∙ b))
        ]
        | inr b ↦
            subst (λ x. HoldsWinners (ops ++ op ∷ []) x.mirror) (ok-injective (rw b at step))
              (losing-HoldsWinners ops m op h (sym agree ∙ b))
      ]
    where
      n : Op N
      n = normalize op

      known' : known_cols n.table ≢ none
      known' = rw (table-normalize op) known

      step :
          (if beats_row (lookup (key_of op) m) n
            then write_row c n m
            else ok (record { changed = false; page_pk = ""; mirror = m }))
          ≡ ok g
      step = rw (← key_of-normalize op) (sym (merge_row_known n m known') ∙ e)

      agree : beats_row (lookup (key_of op) m) n ≡ wins (lookup (key_of op) (merge ops)) n
      agree = beats_row-wins ops m n (key_of op) h
