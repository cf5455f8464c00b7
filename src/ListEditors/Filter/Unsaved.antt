-- ===== src/ListEditors/Filter/Unsaved.antt =====
-- What a deletion sends with changes that were typed but not saved.
use mathlib.Core.Bool.{false≢true}
use gatesentry.Shared.{
  ℕ, String, Bool, true, false, Option, none, some, List, ◌≡◌, ◌∙◌, refl, sym, ap, not, if_cases,
  if◌then◌else◌, find, filter, map, ℕ_eq, ◌==◌,
}
use gatesentry.ListEditors.{ListApi}
use gatesentry.ListEditors.Filter.{
  Numbers, Entry, FilterRow, Editor, payload, handle_content_change, edit_row, without_draft,
  cancel_editing, request_delete, saved_data, save_data, deleted, delete_target, confirm_delete,
}

module _ {S Num : Type 0} (translator : String → String) (num : Numbers Num)
    (api : ListApi S (Entry Num)) where
  server-deleted : (r : (Editor Num × S) × Bool) → (deleted translator num api r).1 ≡ r.0.1
  server-deleted ((p, s), true) = refl
  server-deleted ((p, s), false) = refl

  server-saved :
      (r : S × Option String) (p : Editor Num) → (saved_data translator num api r p).0.1 ≡ r.0
  server-saved (s, none) p = refl
  server-saved (s, some message) p = refl

  server-save_data :
      (next : List (FilterRow Num)) (p : Editor Num) (s : S)
      → p.saving ≡ false
      → (save_data translator num api next (p, s)).0.1 ≡ (api.save (payload next) s).0
  unfolding save_data
  server-save_data next p s free =
      if_cases (λ (r : (Editor Num × S) × Bool). r.0.1 ≡ (api.save (payload next) s).0) p.saving
        (λ busy. absurd (false≢true (sym free ∙ busy)))
        (λ idle. server-saved (api.save (payload next) s) p)

  server-confirm_delete :
      (p : Editor Num) (s : S) (t : FilterRow Num)
      → p.saving ≡ false
      → p.pending_delete ≡ some t
      → (confirm_delete translator num api (p, s)).1
        ≡ (api.save (payload (filter (λ r. not (r.id == t.id)) p.rows)) s).0
  unfolding confirm_delete
  server-confirm_delete p s t free chosen =
      let goal = (api.save (payload (filter (λ r. not (r.id == t.id)) p.rows)) s).0 in
      if_cases (λ (x : Editor Num × S). x.1 ≡ goal) p.saving
        (λ busy. absurd (false≢true (sym free ∙ busy)))
        (λ idle.
          ap (λ o. (delete_target translator num api o (p, s)).1) chosen
          ∙ (server-deleted _ ∙ server-save_data _ p s free))

  -- The rows with the content of one of them changed.
  abbrev pub typed : ℕ → String → List (FilterRow Num) → List (FilterRow Num)
  typed i v = map (λ r. if r.id == i then record r { content = v } else r)

  without_draft-kept :
      (o : Option (FilterRow Num)) (r : FilterRow Num) (rows : List (FilterRow Num))
      → o ≡ some r
      → r.draft ≡ false
      → without_draft o rows ≡ rows
  without_draft-kept o r rows found kept =
      ap (λ x. without_draft x rows) found
      ∙ ap (λ b. if b then filter (λ q. not (q.id == r.id)) rows else rows) kept

  -- Cancel does not take back what was typed into a row that the server has, whose id is `i`: a row that
  -- is deleted next, when no save is running, sends the server all the other rows with that text in them.
  pub confirm_delete-cancel_editing :
      (i j : ℕ) (v : String) (p : Editor Num) (s : S) (r t : FilterRow Num)
      → p.saving ≡ false
      → find (λ q. q.id == i) (typed i v p.rows) ≡ some r
      → r.draft ≡ false
      → find (λ q. q.id == j) (typed i v p.rows) ≡ some t
      → (confirm_delete translator num api
          (request_delete j (cancel_editing (handle_content_change i v (edit_row i p))), s)).1
        ≡ (api.save (payload (filter (λ q. not (q.id == t.id)) (typed i v p.rows))) s).0
  unfolding request_delete cancel_editing handle_content_change edit_row
  confirm_delete-cancel_editing i j v p s r t free found kept chosen =
      let same =
        without_draft-kept (find (λ q. q.id == i) (typed i v p.rows)) r (typed i v p.rows) found
          kept in
      server-confirm_delete
        (request_delete j (cancel_editing (handle_content_change i v (edit_row i p)))) s t free
        (ap (find (λ q. q.id == j)) same ∙ chosen)
      ∙ ap (λ rows. (api.save (payload (filter (λ q. not (q.id == t.id)) rows)) s).0) same
