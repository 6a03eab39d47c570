-- ===== src/Rag/Embed/Replaced.antt =====
-- What a call of EmbedAndStorePage leaves of the vectors.
use boox_bridge.Prelude.{
  ℕ, zero, suc, ◌+◌, String, ◌≡◌, refl, sym, ap, subst, ◌∙◌, Bool, true, false, ◌&&◌, Option, none,
  some, if◌then◌else◌, List, [], ◌∷◌, ◌==◌, arith,
}
use boox_bridge.Prelude.Text.{str_eq, eq_iff}
use boox_bridge.Prelude.Int.{ℤ}
use boox_bridge.Prelude.Lists.{length, get_elem?}
use boox_bridge.Prelude.Result.{Result, ok, err}
use boox_bridge.Rag.Blob.{Float32, IsFloat32}
use boox_bridge.Rag.Vectors.{Vectors, record_is, Action, on_table, on_cache, perform}
use boox_bridge.Rag.Vectors.Coherent.{IsCoherent, perform-IsCoherent}
use boox_bridge.Rag.Vectors.View.{first_of, view, view-save_record, view-delete_page}
use boox_bridge.Rag.Chunk.{chunk_text}
use boox_bridge.Rag.Embed.{
  add_vector, embed_all, outcome, logged, save_all, replace_page, store_chunks,
  embed_and_store_page,
}

module _ {F : Type 0} (f : Float32 F) (embed : ℕ → List ℕ → Option (List F)) where
  -- What a list of vectors makes of the vector of the chunk `c`.
  found : ℕ → List (ℕ × List F) → Option (List F) → Option (List F)
  found c [] old = old
  found c ((i, v) ∷ vs) old = found c vs (if c == i then some v else old)

  -- What the service answers for the chunk of an index, where there is one.
  unfoldable pub vector_of : ℕ → Option (List ℕ) → Option (List F)
  vector_of i none = none
  vector_of i (some c) = embed i c

  found-add_vector :
      (k i : ℕ) (o : Option (List F)) (vs : List (ℕ × List F)) (old : Option (List F))
      → found k (add_vector f embed i o vs) old
        ≡ found k vs (if k == i then first_of o old else old)
  unfolding found add_vector first_of
  found-add_vector k i none vs old = ground arith
  found-add_vector k i (some v) vs old = refl

  found_before :
      (k j : ℕ) (chunks : List (List ℕ)) (old : Option (List F))
      → found k (embed_all f embed (suc j + k) chunks) old ≡ old
  unfolding embed_all
  found_before k j [] old = unfold found in refl
  found_before k j (c ∷ chunks) old =
      found-add_vector k (suc j + k) (embed (suc j + k) c)
        (embed_all f embed (suc j + k + 1) chunks) old
      ∙ rw differs (
          ap (λ i. found k (embed_all f embed i chunks) old) place
          ∙ found_before k (suc j) chunks old)
    where
      place : suc j + k + 1 ≡ suc (suc j) + k
      place = omega arith

      differs : (k == suc j + k) ≡ false
      differs = ground arith

  found_at :
      (i k : ℕ) (chunks : List (List ℕ)) (old : Option (List F))
      → found (i + k) (embed_all f embed i chunks) old
        ≡ first_of (vector_of (i + k) (get_elem? chunks k)) old
  unfolding embed_all vector_of
  found_at i k [] old = unfold found first_of in refl
  found_at i zero (c ∷ chunks) old =
      subst (λ j. found j (embed_all f embed i (c ∷ chunks)) old ≡ first_of (embed j c) old)
        (omega arith)
        (found-add_vector i i (embed i c) (embed_all f embed (i + 1) chunks) old
          ∙ rw same (
              ap (λ j. found i (embed_all f embed j chunks) (first_of (embed i c) old)) place
              ∙ found_before i 0 chunks (first_of (embed i c) old)))
    where
      same : (i == i) ≡ true
      same = ground arith

      place : i + 1 ≡ suc 0 + i
      place = omega arith
  found_at i (suc k) (c ∷ chunks) old =
      found-add_vector (i + suc k) i (embed i c) (embed_all f embed (i + 1) chunks) old
      ∙ rw differs (
          subst
            (λ j.
              found j (embed_all f embed (i + 1) chunks) old
              ≡ first_of (vector_of j (get_elem? chunks k)) old)
            place (found_at (i + 1) k chunks old))
    where
      differs : (i + suc k == i) ≡ false
      differs = ground arith

      place : i + 1 + k ≡ i + suc k
      place = omega arith

  view-save_all :
      (now : ℤ) (path : String) (page : ℕ) (model : String) (vs : List (ℕ × List F))
      (st : Vectors F) (n : ℕ) (p : String) (g c : ℕ)
      → view (save_all f embed now path page model vs st n).0.cache p g c ≡ (
          if str_eq p path && g == page
          then found c vs (view st.cache p g c)
          else view st.cache p g c)
  unfolding save_all logged perform on_table on_cache found
  view-save_all now path page model [] st n p g c = ground arith
  view-save_all now path page model ((i, v) ∷ vs) st n p g c =
      view-save_all now path page model vs _ (n + 1) p g c
      ∙ rw
          (view-save_record (record { note_path = path; page = page; chunk = i; embedding = v })
            st.cache p g c)
          (unfold record_is in ground (arith, eq_iff path p, eq_iff p path))

  logged-IsCoherent :
      IsFloat32 f
      → (now : ℤ) (a : Action f) (st : Vectors F) → IsCoherent f st
      → IsCoherent f (logged f embed now a st).0
  unfolding logged outcome
  logged-IsCoherent h now a st k = go (perform f now a st) refl
    where
      go : (r : Result (Vectors F)) → perform f now a st ≡ r → IsCoherent f (outcome f embed st r).0
      go (ok st') e = perform-IsCoherent f h now a st st' k e
      go (err m) e = k

  save_all-IsCoherent :
      IsFloat32 f
      → (now : ℤ) (path : String) (page : ℕ) (model : String) (vs : List (ℕ × List F))
        (st : Vectors F) (n : ℕ)
      → IsCoherent f st
      → IsCoherent f (save_all f embed now path page model vs st n).0
  unfolding save_all
  save_all-IsCoherent h now path page model [] st n k = k
  save_all-IsCoherent h now path page model ((i, v) ∷ vs) st n k =
      save_all-IsCoherent h now path page model vs _ _
        (logged-IsCoherent h now (Action.save path page i v model) st k)

  count_lem :
      (now : ℤ) (path : String) (page : ℕ) (model : String) (vs : List (ℕ × List F))
      (st : Vectors F) (n : ℕ)
      → (save_all f embed now path page model vs st n).1 ≡ n + length vs
  unfolding save_all logged perform on_table
  count_lem now path page model [] st n = omega arith
  count_lem now path page model ((i, v) ∷ vs) st n =
      count_lem now path page model vs _ (n + 1) ∙ omega arith

  -- The vector of the chunk `c` after a call with these chunks, of which these gave a vector.
  unfoldable pub replaced :
      List (List ℕ) → List (ℕ × List F) → ℕ → Option (List F) → Option (List F)
  unfolding vector_of
  replaced [] vs c old = none
  replaced (t ∷ chunks) [] c old = old
  replaced (t ∷ chunks) (v ∷ vs) c old = vector_of c (get_elem? (t ∷ chunks) c)

  replaced_lem :
      (t : List ℕ) (chunks : List (List ℕ)) (c : ℕ)
      → found c (embed_all f embed 0 (t ∷ chunks)) none ≡ vector_of c (get_elem? (t ∷ chunks) c)
  replaced_lem t chunks c =
      subst
        (λ j.
          found j (embed_all f embed 0 (t ∷ chunks)) none
          ≡ first_of (vector_of j (get_elem? (t ∷ chunks) c)) none)
        (omega arith) (found_at 0 c (t ∷ chunks) none)
      ∙ alone (vector_of c (get_elem? (t ∷ chunks) c))
    where
      alone : (o : Option (List F)) → first_of o none ≡ o
      alone none = unfold first_of in refl
      alone (some v) = unfold first_of in refl

  -- A call has left a coherent store, these vectors on the page and the others elsewhere, and its count.
  abbrev Replaces :
      String → ℕ → List (List ℕ) → List (ℕ × List F) → Vectors F → Vectors F × ℕ → Type 0
  Replaces path page chunks vs st r =
      IsCoherent f r.0
      × ((p : String) (g c : ℕ)
          → view r.0.cache p g c ≡ (
              if str_eq p path && g == page
              then replaced chunks vs c (view st.cache p g c)
              else view st.cache p g c))
      × (r.1 ≡ length vs)

  view-cleared :
      (now : ℤ) (path : String) (page : ℕ) (st : Vectors F) (p : String) (g c : ℕ)
      → view (logged f embed now (Action.delete_page path page) st).0.cache p g c
        ≡ (if str_eq p path && g == page then none else view st.cache p g c)
  unfolding logged outcome perform on_table on_cache
  view-cleared now path page st p g c = view-delete_page path page st.cache p g c

  replace_page_lem :
      IsFloat32 f
      → (now : ℤ) (path : String) (page : ℕ) (model : String) (t : List ℕ) (chunks : List (List ℕ))
        (vs : List (ℕ × List F)) (st : Vectors F)
      → IsCoherent f st
      → embed_all f embed 0 (t ∷ chunks) ≡ vs
      → Replaces path page (t ∷ chunks) vs st (replace_page f embed now path page model vs st)
  unfolding replace_page replaced
  replace_page_lem h now path page model t chunks [] st k e = (k, λ p g c. ground arith, refl)
  replace_page_lem h now path page model t chunks (v ∷ vs) st k e =
      let cleared = (logged f embed now (Action.delete_page path page) st).0 in
      (
        save_all-IsCoherent h now path page model (v ∷ vs) cleared 0
            (logged-IsCoherent h now (Action.delete_page path page) st k),
        λ p g c.
            view-save_all now path page model (v ∷ vs) cleared 0 p g c
            ∙ rw (view-cleared now path page st p g c)
                (on_page c (str_eq p path && g == page) (view st.cache p g c)),
        count_lem now path page model (v ∷ vs) cleared 0 ∙ omega arith,
      )
    where
      on_page :
          (c : ℕ) (b : Bool) (old : Option (List F))
          → (if b then found c (v ∷ vs) (if b then none else old) else if b then none else old)
            ≡ (if b then vector_of c (get_elem? (t ∷ chunks) c) else old)
      on_page c true old = ap (λ l. found c l none) (sym e) ∙ replaced_lem t chunks c
      on_page c false old = refl

  store_chunks_lem :
      IsFloat32 f
      → (now : ℤ) (path : String) (page : ℕ) (model : String) (chunks : List (List ℕ))
        (st : Vectors F)
      → IsCoherent f st
      → Replaces path page chunks
          (embed_all f embed 0 chunks)
          st
          (store_chunks f embed now path page model chunks st)
  unfolding store_chunks
  store_chunks_lem h now path page model [] st k =
      unfold embed_all replaced in
      (
        logged-IsCoherent h now (Action.delete_page path page) st k,
        view-cleared now path page st,
        refl,
      )
  store_chunks_lem h now path page model (t ∷ chunks) st k =
      replace_page_lem h now path page model t chunks (embed_all f embed 0 (t ∷ chunks)) st k refl

  -- From a store whose copy agrees with the table, EmbedAndStorePage leaves such a store and the
  -- vectors of other pages, and its count is that of the vectors that the service gave. The page
  -- has none if the text has no chunk, its old ones if every chunk failed, and else exactly the
  -- vector of each chunk that did not.
  pub embed_and_store_page_lem :
      IsFloat32 f
      → (now : ℤ) (path : String) (page : ℕ) (text : List ℕ) (model : String) (st : Vectors F)
      → IsCoherent f st
      → IsCoherent f (embed_and_store_page f embed now path page text model st).0
        × ((p : String) (g c : ℕ)
            → view (embed_and_store_page f embed now path page text model st).0.cache p g c ≡ (
                if str_eq p path && g == page
                then replaced
                    (chunk_text text)
                    (embed_all f embed 0 (chunk_text text))
                    c
                    (view st.cache p g c)
                else view st.cache p g c))
        × ((embed_and_store_page f embed now path page text model st).1
            ≡ length (embed_all f embed 0 (chunk_text text)))
  unfolding embed_and_store_page
  embed_and_store_page_lem h now path page text model st k =
      store_chunks_lem h now path page model (chunk_text text) st k
