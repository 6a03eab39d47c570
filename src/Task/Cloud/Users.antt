-- ===== src/Task/Cloud/Users.antt =====
-- What the operations of one user do to the tasks of another.
use boox_bridge.Prelude.{
  String, ◌≡◌, refl, ◌∙◌, inl, inr, Bool, true, false, List, [], ◌∷◌, ◌++◌, arith, Bool-cases,
}
use boox_bridge.Prelude.Int.{ℤ, eqb_int, eqb_int_iff}
use boox_bridge.Prelude.Lists.{keep}
use boox_bridge.Task.{Task}
use boox_bridge.Task.Store.{fill_defaults}
use boox_bridge.Task.Cloud.{
  owned, create_for, inserted, update_for, set_task, delete_for, delete_completed_for,
  completed_for, change_tasks, mark_deleted,
}

-- The operations of a user that write.
pub data Write (user : ℤ) (rows : List Task) : List Task → Type 0 where
  created :
      (generate : String → ℤ → String) (now : ℤ) (t : Task)
      → Write user rows (create_for user generate now t rows).1
  updated : (now : ℤ) (t : Task) → Write user rows (update_for user now t rows)
  deleted : (now : ℤ) (id : String) → Write user rows (delete_for user now id rows)
  cleared : (now : ℤ) → Write user rows (delete_completed_for user now rows).1

not-owned :
    (user other : ℤ) (t : Task)
    → eqb_int other user ≡ false
    → owned user t ≡ true
    → owned other t ≡ false
unfolding owned
not-owned user other t h o =
    ground (arith, eqb_int_iff t.user_id user, eqb_int_iff t.user_id other, eqb_int_iff other user)

keep-append_foreign :
    (q : Task → Bool) (t : Task) (rows : List Task)
    → q t ≡ false
    → keep q (rows ++ t ∷ []) ≡ keep q rows
unfolding keep
keep-append_foreign q t [] h = rw h refl
keep-append_foreign q t (r ∷ rows) h = rw (keep-append_foreign q t rows h) refl

-- A change of rows that a test does not keep, before and after, leaves what it keeps.
keep-change_foreign :
    (q p : Task → Bool) (f : Task → Task) (rows : List Task)
    → ((t : Task) → p t ≡ true → q t ≡ false)
    → ((t : Task) → q (f t) ≡ q t)
    → keep q (change_tasks p f rows) ≡ keep q rows
unfolding keep change_tasks
keep-change_foreign q p f [] foreign same = refl
keep-change_foreign q p f (t ∷ rows) foreign same =
    let rest = keep-change_foreign q p f rows foreign same in
    elim (Bool-cases (p t)) [
      | inl e ↦ rw (e, same t ∙ foreign t e, foreign t e) rest
      | inr e ↦ rw (e, rest) refl
    ]

-- Create, Update, Delete and DeleteCompleted of a user of the private cloud leave all rows of
-- another user, deleted ones too, as they are and in their order.
pub writes_keep_others :
    (user other : ℤ) (rows rows' : List Task)
    → eqb_int other user ≡ false
    → Write user rows rows'
    → keep (owned other) rows' ≡ keep (owned other) rows
unfolding create_for update_for delete_for delete_completed_for completed_for
writes_keep_others user other rows _ h (Write.created generate now t) =
    keep-append_foreign (owned other)
      (inserted (fill_defaults generate now (record t { user_id = user }))) rows
      (not-owned user other (inserted (fill_defaults generate now (record t { user_id = user }))) h
        (unfold owned inserted fill_defaults in ground (arith, eqb_int_iff user user)))
writes_keep_others user other rows _ h (Write.updated now t) =
    keep-change_foreign (owned other) _ (set_task now t) rows
      (λ r e. not-owned user other r h (ground arith)) (λ r. unfold owned set_task in refl)
writes_keep_others user other rows _ h (Write.deleted now id) =
    keep-change_foreign (owned other) _ (mark_deleted now) rows
      (λ r e. not-owned user other r h (ground arith)) (λ r. unfold owned mark_deleted in refl)
writes_keep_others user other rows _ h (Write.cleared now) =
    keep-change_foreign (owned other) (completed_for user) (mark_deleted now) rows
      (λ r e. not-owned user other r h (unfold completed_for in ground arith))
      (λ r. unfold owned mark_deleted in refl)
