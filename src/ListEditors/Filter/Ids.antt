-- ===== src/ListEditors/Filter/Ids.antt =====
-- The ids of the rows stay distinct, drafts and typed changes included.
use gatesentry.Shared.{
  ℕ, ◌+◌, ◌<◌, String, Bool, true, false, Option, none, some, List, [], ◌∷◌, ◌++◌, ◌≡◌, refl, sym,
  subst, ◌⊎◌, inl, inr, if_cases, if◌then◌else◌, filter, map, length, ℕ_eq, ◌==◌, arith,
}
use gatesentry.ListEditors.{ListApi}
use gatesentry.ListEditors.Filter.{
  Numbers, Entry, FilterRow, Editor, numbered, payload, row_of, handle_content_change,
  handle_score_change, edit_row, without_draft, cancel_editing, request_delete, can_save_row,
  add_draft, add_row, loaded, load_api_data, saved_data, save_data, save_editing_row, deleted,
  delete_target, confirm_delete, Event, reload, cancel, add, submit, confirm, dismiss, edit,
  type_content, type_score, ask_delete, step, run,
}

module _ {Num : Type 0} where
  -- The ids of the rows increase, from above one number and below another.
  abbrev pub IsIncreasing : ℕ → List (FilterRow Num) → ℕ → Type 0
  IsIncreasing low [] high = low < high
  IsIncreasing low (r ∷ rs) high = (low < r.id) × IsIncreasing r.id rs high

  numbered-IsIncreasing :
      (i : ℕ) (es : List (Entry Num)) → IsIncreasing i (numbered i es) (i + length es + 1)
  numbered-IsIncreasing i [] = omega arith
  numbered-IsIncreasing i (e ∷ es) = (
    omega arith,
    subst (IsIncreasing (i + 1) (numbered (i + 1) es)) (omega arith)
        (numbered-IsIncreasing (i + 1) es),
  )

  append-IsIncreasing :
      (low : ℕ) (rs : List (FilterRow Num)) (r : FilterRow Num)
      → IsIncreasing low rs r.id
      → IsIncreasing low (rs ++ r ∷ []) (r.id + 1)
  append-IsIncreasing low [] r h = (h, omega arith)
  append-IsIncreasing low (q ∷ rs) r (p, h) = (p, append-IsIncreasing q.id rs r h)

  -- A change of rows that keeps their ids.
  map-IsIncreasing :
      (f : FilterRow Num → FilterRow Num)
      → ((r : FilterRow Num) → (f r).id ≡ r.id)
      → (low : ℕ) (rs : List (FilterRow Num)) (high : ℕ) → IsIncreasing low rs high
      → IsIncreasing low (map f rs) high
  map-IsIncreasing f keeps low [] high h = h
  map-IsIncreasing f keeps low (r ∷ rs) high (p, h) = (
    subst (λ i. low < i) (sym (keeps r)) p,
    subst (λ i. IsIncreasing i (map f rs) high) (sym (keeps r))
        (map-IsIncreasing f keeps r.id rs high h),
  )

  lower-IsIncreasing :
      (low low' : ℕ) (rs : List (FilterRow Num)) (high : ℕ)
      → low' < low
      → IsIncreasing low rs high
      → IsIncreasing low' rs high
  lower-IsIncreasing low low' [] high lt h = omega arith
  lower-IsIncreasing low low' (r ∷ rs) high lt (p, h) = (omega arith, h)

  filter-IsIncreasing :
      (keep : FilterRow Num → Bool) (low : ℕ) (rs : List (FilterRow Num)) (high : ℕ)
      → IsIncreasing low rs high
      → IsIncreasing low (filter keep rs) high
  filter-IsIncreasing keep low [] high h = h
  filter-IsIncreasing keep low (r ∷ rs) high (p, h) =
      if_cases (λ xs. IsIncreasing low xs high) (keep r)
        (λ kept. (p, filter-IsIncreasing keep r.id rs high h))
        (λ dropped.
          lower-IsIncreasing r.id low (filter keep rs) high p
            (filter-IsIncreasing keep r.id rs high h))

  -- The rows of the editor have distinct ids, and `nextId` is above them.
  abbrev pub HasIds : Editor Num → Type 0
  HasIds p = IsIncreasing 0 p.rows p.next_id

  changed-HasIds :
      (i : ℕ) (f : FilterRow Num → FilterRow Num) (p : Editor Num)
      → ((r : FilterRow Num) → (f r).id ≡ r.id)
      → HasIds p
      → IsIncreasing 0 (map (λ r. if r.id == i then f r else r) p.rows) p.next_id
  changed-HasIds i f p keeps h =
      map-IsIncreasing (λ r. if r.id == i then f r else r)
        (λ r. if_cases (λ (x : FilterRow Num). x.id ≡ r.id) (r.id == i) (λ e. keeps r) (λ e. refl))
        0 p.rows p.next_id h

  without_draft-IsIncreasing :
      (o : Option (FilterRow Num)) (rs : List (FilterRow Num)) (high : ℕ)
      → IsIncreasing 0 rs high
      → IsIncreasing 0 (without_draft o rs) high
  without_draft-IsIncreasing none rs high h = h
  without_draft-IsIncreasing (some r) rs high h =
      if_cases (λ xs. IsIncreasing 0 xs high) r.draft (λ d. filter-IsIncreasing _ 0 rs high h)
        (λ d. h)

  add_draft-HasIds :
      (num : Numbers Num) (o : Option ℕ) (p : Editor Num) → HasIds p → HasIds (add_draft num o p)
  add_draft-HasIds num none p h = append-IsIncreasing 0 p.rows _ h
  add_draft-HasIds num (some i) p h = h

module _ {S Num : Type 0} (translator : String → String) (num : Numbers Num)
    (api : ListApi S (Entry Num)) where
  loaded-HasIds :
      (r : List (Entry Num) ⊎ String) (p : Editor Num)
      → HasIds p
      → HasIds (loaded translator num api r p)
  loaded-HasIds (inl entries) p h =
      subst (IsIncreasing 0 (numbered 0 entries)) (omega arith) (numbered-IsIncreasing 0 entries)
  loaded-HasIds (inr message) p h = h

  saved-HasIds :
      (r : S × Option String) (p : Editor Num)
      → HasIds p
      → HasIds (saved_data translator num api r p).0.0
  saved-HasIds (s, none) p h = loaded-HasIds (api.load s) p h
  saved-HasIds (s, some message) p h = h

  save_data-HasIds :
      (next : List (FilterRow Num)) (p : Editor Num) (s : S)
      → HasIds p
      → HasIds (save_data translator num api next (p, s)).0.0
  unfolding save_data
  save_data-HasIds next p s h =
      if_cases (λ (r : (Editor Num × S) × Bool). HasIds r.0.0) p.saving (λ busy. h)
        (λ free. saved-HasIds (api.save (payload next) s) p h)

  deleted-HasIds :
      (r : (Editor Num × S) × Bool) → HasIds r.0.0 → HasIds (deleted translator num api r).0
  deleted-HasIds ((p, s), true) h = h
  deleted-HasIds ((p, s), false) h = h

  target-HasIds :
      (t : Option (FilterRow Num)) (p : Editor Num) (s : S)
      → HasIds p
      → HasIds (delete_target translator num api t (p, s)).0
  target-HasIds none p s h = h
  target-HasIds (some t) p s h = deleted-HasIds _ (save_data-HasIds _ p s h)

  step-HasIds :
      (e : Event) (p : Editor Num) (s : S) → HasIds p → HasIds (step translator num api e (p, s)).0
  unfolding step
  step-HasIds reload p s h = unfold load_api_data in loaded-HasIds (api.load s) p h
  step-HasIds cancel p s h =
      unfold cancel_editing in
      without_draft-IsIncreasing (row_of p.editing_row_id p.rows) p.rows p.next_id h
  step-HasIds add p s h = unfold add_row in add_draft-HasIds num p.editing_row_id p h
  step-HasIds (submit show_score) p s h =
      unfold save_editing_row in
      if_cases (λ (x : Editor Num × S). HasIds x.0)
        (can_save_row num show_score (row_of p.editing_row_id p.rows))
        (λ go. save_data-HasIds _ p s h) (λ stop. h)
  step-HasIds confirm p s h =
      unfold confirm_delete in
      if_cases (λ (x : Editor Num × S). HasIds x.0) p.saving (λ busy. h)
        (λ free. target-HasIds p.pending_delete p s h)
  step-HasIds dismiss p s h = h
  step-HasIds (edit i) p s h = unfold edit_row in h
  step-HasIds (type_content i v) p s h =
      unfold handle_content_change in
      changed-HasIds i (λ r. record r { content = v }) p (λ r. refl) h
  step-HasIds (type_score i v) p s h =
      unfold handle_score_change in
      changed-HasIds i (λ r. record r { score = num.number v }) p (λ r. refl) h
  step-HasIds (ask_delete i) p s h = unfold request_delete in h

  -- Whatever an administrator does and the server answers, the ids of the rows increase and `nextId`
  -- is above them, so that no two rows, drafts included, share an id.
  pub run-HasIds :
      (es : List Event) (p : Editor Num) (s : S)
      → IsIncreasing 0 p.rows p.next_id
      → HasIds (run translator num api es (p, s)).0
  unfolding run
  run-HasIds [] p s h = h
  run-HasIds (e ∷ es) p s h =
      let (q, t) = step translator num api e (p, s) in run-HasIds es q t (step-HasIds e p s h)
