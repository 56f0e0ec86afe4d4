-- ===== src/Gateway/Listing.antt =====
-- src/polymaker/execution/gateway.py: `positions` answers with complete listings only.
use polymaker.Prelude.{
  String, ◌&&◌, false, Bool-cases, some_inj, ℕ, zero, suc, ◌+◌, ◌≤◌, ◌≡◌, refl, sym, ◌∙◌, ap, ◌↔◌,
  Option, none, some, Option-cases, inl, inr, bind_some, nat_eq, length, List, ◌∷◌, Dict, insert,
  [], arith, if◌then◌else◌,
}
use polymaker.Float.{Float}
use polymaker.Wire.{
  Json, Fields, Python, object, null, boolean, number, text, array, get, iterated, truthy,
}
use polymaker.Gateway.Account.{
  Cursor, no_cursor, cursor, position_row, add_rows, dict_of, cursor_of, read_page, read_pages,
  positions,
}

module _ {F : Type 0} ⦃fl : Float F⦄ (py : Python F) where
  -- The positions of the rows that can be read.
  pub read_rows : List (Json F) → List (String × F × F)
  read_rows [] = []
  read_rows (r ∷ rs) = elim (position_row py r) as (λ x. List (String × F × F)) [
    | none ↦ read_rows rs
    | some p ↦ p ∷ read_rows rs
  ]

  -- Positions written over what was read before, the later over the earlier.
  pub noted : List (String × F × F) → Dict (F × F) → Dict (F × F)
  noted [] out = out
  noted ((t, size, avg) ∷ ps) out = noted ps (insert t (size, avg) out)

  -- A reply that is a page: an object whose `data` lists rows, one of which can be read unless there are
  -- none, and whose `pagination` is an object that names the next page or does not.
  pub record IsPage (reply : Option (Json F)) (out more : Dict (F × F)) (next : Cursor F)
      : Type 0 where
    pub payload : Fields F
    pub answered : reply ≡ some (object payload)
    pub rows : List (Json F)
    pub lists : iterated (get "data" payload) ≡ some rows
    pub some_read : (truthy (get "data" payload) && nat_eq (length (read_rows rows)) 0) ≡ false
    pub page : Fields F
    pub is_paged : get "pagination" payload ≡ object page
    pub names_next :
        next
        ≡ (if truthy (get "next_cursor" page) then cursor (get "next_cursor" page) else no_cursor)
    pub all_noted : more ≡ noted (read_rows rows) out

  add_rows_lem :
      (rows : List (Json F)) (out : Dict (F × F)) (n : ℕ)
      → add_rows py rows out n ≡ (noted (read_rows rows) out, n + length (read_rows rows))
  unfolding add_rows read_rows noted
  add_rows_lem [] out n = ground arith
  add_rows_lem (r ∷ rs) out n = elim (Option-cases (position_row py r)) [
    | inl e ↦ rw (e, add_rows, read_rows) (add_rows_lem rs out n)
    | inr ((t, size, avg), e) ↦
        rw (e, add_rows, read_rows)
          (add_rows_lem rs (insert t (size, avg) out) (suc n)
            ∙ ap (λ k. (noted (read_rows rs) (insert t (size, avg) out), k)) (omega arith))
  ]

  dict_of-object : (v : Json F) (fs : Fields F) → dict_of py v ≡ some fs → v ≡ object fs
  dict_of-object (object gs) fs h = ap object (some_inj gs fs h)
  dict_of-object null fs h = ground arith
  dict_of-object (boolean b) fs h = ground arith
  dict_of-object (number x) fs h = ground arith
  dict_of-object (text t) fs h = ground arith
  dict_of-object (array xs) fs h = ground arith

  add_rows_first :
      (rows : List (Json F)) (out : Dict (F × F))
      → add_rows py rows out 0 ≡ (noted (read_rows rows) out, length (read_rows rows))
  add_rows_first rows out =
      add_rows_lem rows out 0 ∙ ap (λ k. (noted (read_rows rows) out, k)) (omega arith)

  -- The answer of a page, once its rows and its cursor are known.
  abbrev page_result : Json F → Dict (F × F) × ℕ → Cursor F → Option (Dict (F × F) × Cursor F)
  page_result listing added c =
      if truthy listing && nat_eq added.1 0 then none else some (added.0, c)

  page_result-some :
      (listing : Json F) (added : Dict (F × F) × ℕ) (more : Dict (F × F)) (c next : Cursor F)
      → page_result listing added c ≡ some (more, next)
      → ((truthy listing && nat_eq added.1 0) ≡ false) × (more ≡ added.0) × (next ≡ c)
  page_result-some listing added more c next h =
      elim (Bool-cases (truthy listing && nat_eq added.1 0)) [
        | inl e ↦ ground (arith, (rw e at h))
        | inr e ↦
            let same = some_inj (added.0, c) (more, next) (rw e at h) in
            (e, sym (ap (λ p. p.0) same), sym (ap (λ p. p.1) same))
      ]

  object-IsPage :
      (payload : Fields F) (out more : Dict (F × F)) (next : Cursor F)
      → read_page py (some (object payload)) out ≡ some (more, next)
      → IsPage (some (object payload)) out more next
  unfolding read_page cursor_of
  object-IsPage payload out more next h =
      let (rows, e, g) = bind_some (iterated (get "data" payload)) _ (more, next) h in
      let (c, f, k) = bind_some (cursor_of py payload) _ (more, next) g in
      let (page, d, l) = bind_some (dict_of py (get "pagination" payload)) _ c f in
      let added = add_rows_first rows out in
      let (read, kept, named) =
        page_result-some (get "data" payload) (add_rows py rows out 0) more c next k in
      record {
        payload = payload;
        answered = refl;
        rows = rows;
        lists = e;
        some_read = sym (ap (λ r. truthy (get "data" payload) && nat_eq r.1 0) added) ∙ read;
        page = page;
        is_paged = dict_of-object (get "pagination" payload) page d;
        names_next = named ∙ sym (some_inj _ c l);
        all_noted = kept ∙ ap (λ r. r.0) added;
      }

  read_page-IsPage :
      (reply : Option (Json F)) (out more : Dict (F × F)) (next : Cursor F)
      → read_page py reply out ≡ some (more, next)
      → IsPage reply out more next
  unfolding read_page
  read_page-IsPage (some (object payload)) out more next h = object-IsPage payload out more next h
  read_page-IsPage none out more next h = ground arith
  read_page-IsPage (some null) out more next h = ground arith
  read_page-IsPage (some (boolean b)) out more next h = ground arith
  read_page-IsPage (some (number x)) out more next h = ground arith
  read_page-IsPage (some (text t)) out more next h = ground arith
  read_page-IsPage (some (array xs)) out more next h = ground arith

  IsPage-read_page :
      (reply : Option (Json F)) (out more : Dict (F × F)) (next : Cursor F)
      → IsPage reply out more next
      → read_page py reply out ≡ some (more, next)
  unfolding read_page cursor_of
  IsPage-read_page reply out more next p =
      rw
        (
          p.answered,
          read_page,
          p.lists,
          p.is_paged,
          add_rows_first p.rows out,
          p.some_read,
          p.names_next,
          p.all_noted,
        )
        refl

module _ {F : Type 0} ⦃fl : Float F⦄ (py : Python F) (fetch : Cursor F → Option (Json F)) where
  -- A chain of pages from a cursor to a page that names no further one: the
  -- number of pages, the cursor, what was read before and what is read in the end.
  pub data Listing : ℕ → Cursor F → Dict (F × F) → Dict (F × F) → Type 0 where
    last :
        (c : Cursor F) (out more : Dict (F × F))
        → IsPage py (fetch c) out more no_cursor
        → Listing 1 c out more
    further :
        (n : ℕ) (c : Cursor F) (j : Json F) (out more final : Dict (F × F))
        → IsPage py (fetch c) out more (cursor j)
        → Listing n (cursor j) more final
        → Listing (suc n) c out final

  -- A step of the loop, by what its page is.
  step_none :
      (n : ℕ) (c : Cursor F) (out : Dict (F × F))
      → read_page py (fetch c) out ≡ none
      → read_pages py fetch (suc n) c out ≡ none
  unfolding read_pages
  step_none n c out e = rw (e, read_pages) refl

  step_last :
      (n : ℕ) (c : Cursor F) (out more : Dict (F × F))
      → read_page py (fetch c) out ≡ some (more, no_cursor)
      → read_pages py fetch (suc n) c out ≡ some more
  unfolding read_pages
  step_last n c out more e = rw (e, read_pages) refl

  step_further :
      (n : ℕ) (c : Cursor F) (j : Json F) (out more : Dict (F × F))
      → read_page py (fetch c) out ≡ some (more, cursor j)
      → read_pages py fetch (suc n) c out ≡ read_pages py fetch n (cursor j) more
  unfolding read_pages
  step_further n c j out more e = rw (e, read_pages) refl

  read_pages-Listing :
      (n : ℕ) (c : Cursor F) (out final : Dict (F × F))
      → read_pages py fetch n c out ≡ some final
      → (k : ℕ) × (k ≤ n) × Listing k c out final
  unfolding read_pages
  read_pages-Listing zero c out final h = ground arith
  read_pages-Listing (suc n) c out final h =
      go (read_pages-Listing n) (read_page py (fetch c) out) refl
    where
      go :
          ((d : Cursor F) (some_out : Dict (F × F)) (f : Dict (F × F))
            → read_pages py fetch n d some_out ≡ some f
            → (k : ℕ) × (k ≤ n) × Listing k d some_out f)
          → (o : Option (Dict (F × F) × Cursor F)) → read_page py (fetch c) out ≡ o
          → (k : ℕ) × (k ≤ suc n) × Listing k c out final
      go later none e = ground (arith, step_none n c out e, h)
      go later (some (more, no_cursor)) e = (
        1,
        omega arith,
        last c out final (
            read_page-IsPage py (fetch c) out final no_cursor (
              e
              ∙ ap (λ m. some (m, no_cursor))
                  (some_inj more final (sym (step_last n c out more e) ∙ h)))),
      )
      go later (some (more, cursor j)) e =
          let (k, b, l) = later (cursor j) more final (sym (step_further n c j out more e) ∙ h) in
          (
            suc k,
            omega arith,
            further k c j out more final (read_page-IsPage py (fetch c) out more (cursor j) e) l,
          )

  Listing-read_pages :
      (k n : ℕ) (c : Cursor F) (out final : Dict (F × F))
      → k ≤ n
      → Listing k c out final
      → read_pages py fetch n c out ≡ some final
  unfolding read_pages
  Listing-read_pages _ (suc n) c out final b (last _ _ _ e) =
      rw (IsPage-read_page py (fetch c) out final no_cursor e, read_pages) refl
  Listing-read_pages _ (suc n) c out final b (further k _ j _ more _ e rest) =
      rw (IsPage-read_page py (fetch c) out more (cursor j) e, read_pages)
        (Listing-read_pages k n (cursor j) more final (omega arith) rest)
  Listing-read_pages _ zero c out final b (last _ _ _ e) = ground arith
  Listing-read_pages _ zero c out final b (further k _ j _ more _ e rest) = ground arith

  -- The position read answers with a listing exactly when there is a chain of at most fifty pages from the
  -- first page to one that names no further page, and then with what the readable rows of that whole
  -- chain say, the later over the earlier. A page is an object whose `data` lists rows, one of which can
  -- be read unless there are none, and whose `pagination` is an object. So a failed request, a page in
  -- another shape or a longer listing is no answer, never a shorter one.
  pub positions-Listing :
      (final : Dict (F × F))
      → (positions py fetch ≡ some final) ↔ ((k : ℕ) × (k ≤ 50) × Listing k no_cursor [] final)
  unfolding positions
  positions-Listing final = (
    read_pages-Listing 50 no_cursor [] final,
    λ l. Listing-read_pages l.0 50 no_cursor [] final l.1 l.2,
  )
