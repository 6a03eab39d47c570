-- ===== src/Sync/Mirror/Uniform.antt =====
-- The upserts do the same to every mirror: they fail for a reason of the operation alone, or they put
-- one row that is read off the operation.
use text.Mathlib.Text.{◌==◌}
use boox_bridge.Prelude.{String, ◌≡◌, refl, ◌≢◌, Bool, true, false, none, if◌then◌else◌}
use boox_bridge.Prelude.Result.{Result, ok, err, ◌>>=◌}
use boox_bridge.Sync.Op.{Op, known_cols}
use boox_bridge.Sync.Codec.{Codec}
use boox_bridge.Sync.Mirror.{
  Row, Mirror, put_row, upsert_folder, upsert_notebook, upsert_page, upsert_stroke, upsert_text_box,
  upsert_page_text, upsert,
}

-- `f` fails on every mirror with one error, or puts one row into every mirror.
pub data Uniform {N : Type 0} (n : Op N) (f : Mirror → Result (String × Mirror)) : Type 0 where
  fails : (e : String) → ((m : Mirror) → f m ≡ err e) → Uniform n f
  puts : (p : String) (r : Row) → ((m : Mirror) → f m ≡ ok (p, put_row n r m)) → Uniform n f

-- The same for an upsert that returns the mirror alone.
data Uniform₁ {N : Type 0} (n : Op N) (f : Mirror → Result Mirror) : Type 0 where
  fails : (e : String) → ((m : Mirror) → f m ≡ err e) → Uniform₁ n f
  puts : (r : Row) → ((m : Mirror) → f m ≡ ok (put_row n r m)) → Uniform₁ n f

module _ {N : Type 0} (n : Op N) where
  bind :
      {A : Type 0} (x : Result A) (f : A → Mirror → Result (String × Mirror))
      → ((a : A) → Uniform n (f a))
      → Uniform n (λ m. x >>= λ a. f a m)
  bind (ok a) f u = u a
  bind (err e) f u = Uniform.fails e (λ m. refl)

  bind₁ :
      {A : Type 0} (x : Result A) (f : A → Mirror → Result Mirror)
      → ((a : A) → Uniform₁ n (f a))
      → Uniform₁ n (λ m. x >>= λ a. f a m)
  bind₁ (ok a) f u = u a
  bind₁ (err e) f u = Uniform₁.fails e (λ m. refl)

  done : (p : String) (r : Row) → Uniform n (λ m. ok (p, put_row n r m))
  done p r = Uniform.puts p r (λ m. refl)

  done₁ : (r : Row) → Uniform₁ n (λ m. ok (put_row n r m))
  done₁ r = Uniform₁.puts r (λ m. refl)

  with_page :
      (p : String) (f : Mirror → Result Mirror)
      → Uniform₁ n f
      → Uniform n (λ m. f m >>= λ m'. ok (p, m'))
  with_page p f (Uniform₁.fails e h) = Uniform.fails e (λ m. rw (h m))
  with_page p f (Uniform₁.puts r h) = Uniform.puts p r (λ m. rw (h m))

module _ {N P : Type 0} (c : Codec N P) (n : Op N) where
  folder_uniform : Uniform₁ n (upsert_folder c n)
  unfolding upsert_folder
  folder_uniform = search (bind₁, done₁) depth 12

  text_box-Uniform : Uniform n (upsert_text_box c n)
  unfolding upsert_text_box
  text_box-Uniform = search (bind, done) depth 20

  notebook_uniform : Uniform₁ n (upsert_notebook c n)
  unfolding upsert_notebook
  notebook_uniform = search (bind₁, done₁) depth 12

  page_uniform : Uniform₁ n (upsert_page c n)
  unfolding upsert_page
  page_uniform = search (bind₁, done₁) depth 12

  stroke-Uniform : Uniform n (upsert_stroke c n)
  unfolding upsert_stroke
  stroke-Uniform = search (bind, done) depth 12

  page_text_uniform : Uniform₁ n (upsert_page_text c n)
  unfolding upsert_page_text
  page_text_uniform = search (bind₁, done₁) depth 12

  branch :
      (b : Bool) (f g : Mirror → Result (String × Mirror))
      → (b ≡ true → Uniform n f)
      → (b ≡ false → Uniform n g)
      → Uniform n (λ m. if b then f m else g m)
  branch true f g u v = u refl
  branch false f g u v = v refl

  -- Every upsert of a known table is uniform.
  pub upsert-Uniform : known_cols n.table ≢ none → Uniform n (upsert c n)
  unfolding upsert known_cols
  upsert-Uniform known =
      branch (n.table == "folder") _ _ (λ _. with_page n "" _ folder_uniform)
        λ h₁.
          branch (n.table == "notebook") _ _ (λ _. with_page n "" _ notebook_uniform)
            λ h₂.
              branch (n.table == "page") _ _ (λ _. with_page n n.pk _ page_uniform)
                λ h₃.
                  branch (n.table == "stroke") _ _ (λ _. stroke-Uniform)
                    λ h₄.
                      branch (n.table == "text_box") _ _ (λ _. text_box-Uniform)
                        λ h₅.
                          branch (n.table == "page_text_from_server") _ _
                            (λ _. with_page n "" _ page_text_uniform)
                            λ h₆.
                              branch (n.table == "page_text_from_client") _ _
                                (λ _. with_page n "" _ page_text_uniform)
                                λ h₇. absurd (known (rw (h₁, h₂, h₃, h₄, h₅, h₆, h₇)))
